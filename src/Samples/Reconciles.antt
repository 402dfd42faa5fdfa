-- ===== src/Samples/Reconciles.antt =====
-- The theorems on the reconcile loop, at a cluster that has config maps and one project.
use projectresourcequota.Prelude.{String, sym, ap, ◌∙◌, ◌≡◌, refl, none, some, [], ◌∷◌}
use projectresourcequota.Prelude.Int.{ℤ, ◌+ℤ◌}
use projectresourcequota.Dict.{lookup, erase, insert}
use projectresourcequota.Api.{Kind, ProjectResourceQuota, ResourceList}
use projectresourcequota.Api.Result.{ok, err, client}
use projectresourcequota.Util.{remove_finalizer, without, is_annotation_exists, remove_annotation}
use projectresourcequota.Controller.Cluster.{Client}
use projectresourcequota.Controller.Strip.{
  remove_annotation_from_objects, strip_namespaces, strip_namespace, strip_kind, strip_items,
  strip_object,
}
use projectresourcequota.Controller.Strip.Namespaces.{IsVacated, remove_annotation_clears}
use projectresourcequota.Controller.Strip.Frame.{remove_annotation_elsewhere}
use projectresourcequota.Controller.Reconcile.{
  finish_deletion, reconcile, removed_namespaces, update_usage, with_status,
}
use projectresourcequota.Controller.Usage.{
  count_namespaces, count_namespace, count_kind, count_pods, charge_pods, add_used, add_limited,
  count_services, charge_services, pod_totals, pod_charges, count_where, reset_used,
}
use projectresourcequota.Webhook.Counting.{at}
use projectresourcequota.Controller.Reconcile.Settled.{reconcile_settled}
use projectresourcequota.Controller.Reconcile.Outcome.{
  IsRecorded, IsFinished, reconcile-IsRecorded, reconcile-IsFinished,
}
use projectresourcequota.Controller.Reconcile.Failure.{reconcile_failed}
use projectresourcequota.Samples.{whole, exact, meta_of, annotated_meta, plain, two_cpu, team_a}
use projectresourcequota.Controller.Reconcile.Blocked.{deletion_elsewhere}
use projectresourcequota.Samples.Cluster.{
  list_of-project, world-IsStatusStore, World, world, name_lists, world-IsStore, world-IsReliable,
  list_of,
}

-- The project had the namespace a3, and has a1 and a2 now.
abbrev pub moved : ProjectResourceQuota ℤ
moved = record team_a { status = record { used = none; namespaces = "a1" ∷ "a3" ∷ [] } }

abbrev leaving : ProjectResourceQuota ℤ
leaving = record team_a { meta = record team_a.meta { deletion_timestamp = some 1 } }

abbrev pub world_of : ProjectResourceQuota ℤ → World
world_of prq = record {
  config_maps = plain (annotated_meta "x" "a1" "a") ∷ plain (annotated_meta "y" "a3" "a") ∷ [];
  project = prq;
}

abbrev stripped : World
stripped = record {
  config_maps =
      plain (annotated_meta "x" "a1" "a")
      ∷ plain (record (meta_of "y" "a3") { annotations = some [] })
      ∷ [];
  project = moved;
}

strip_run :
    remove_annotation_from_objects world name_lists ("a3" ∷ []) (world_of moved) ≡ (ok tt, stripped)
unfolding remove_annotation_from_objects strip_namespaces strip_namespace strip_kind strip_items
    strip_object is_annotation_exists remove_annotation lookup erase
strip_run = refl

remove_annotation_clears_example : IsVacated world world-IsStore "a3" stripped
remove_annotation_clears_example =
    remove_annotation_clears world world-IsStore name_lists ("a3" ∷ []) (world_of moved) stripped
      strip_run "a3" refl

remove_annotation_elsewhere_example :
    list_of Kind.config_map "a1" stripped ≡ list_of Kind.config_map "a1" (world_of moved)
remove_annotation_elsewhere_example =
    remove_annotation_elsewhere world world-IsStore name_lists ("a3" ∷ []) (world_of moved) stripped
      strip_run Kind.config_map "a1" refl

reconcile-IsRecorded_example :
    (s' : World) × (reconcile two_cpu name_lists world "a" (world_of moved) ≡ (ok tt, s'))
    × IsRecorded two_cpu name_lists world world-IsStore moved (world_of moved) s'
reconcile-IsRecorded_example =
    reconcile-IsRecorded two_cpu name_lists world world-IsStore world-IsReliable "a"
      (world_of moved) refl refl

reconcile-IsFinished_example :
    (s' : World) × (reconcile two_cpu name_lists world "a" (world_of leaving) ≡ (ok tt, s'))
    × IsFinished two_cpu name_lists world world-IsStore leaving (world_of leaving) s'
reconcile-IsFinished_example =
    reconcile-IsFinished two_cpu name_lists world world-IsStore world-IsReliable "a"
      (world_of leaving) refl refl

-- The same cluster, where another writer is always first.
abbrev contended : Client ℤ (Unit {0}) World
contended = record world {
  update_project = λ prq s. (err (client "conflict"), s);
  update_status = λ prq s. (err (client "conflict"), s);
}

contended_run :
    reconcile two_cpu name_lists contended "a" (world_of moved)
    ≡ (err (client "conflict"), stripped)
unfolding reconcile update_usage removed_namespaces remove_annotation_from_objects strip_namespaces
    strip_namespace strip_kind strip_items strip_object is_annotation_exists remove_annotation
    lookup erase insert count_namespaces count_namespace count_kind count_pods charge_pods add_used
    add_limited count_services charge_services pod_totals pod_charges count_where at reset_used ◌+ℤ◌
contended_run = refl

reconcile_failed_example :
    stripped
    ≡ (remove_annotation_from_objects contended name_lists
        (removed_namespaces two_cpu name_lists contended moved)
        (world_of moved)).1
reconcile_failed_example =
    reconcile_failed two_cpu name_lists contended (λ prq s s' e h. ap (λ p. p.1) (sym h))
      (λ prq s s' e h. ap (λ p. p.1) (sym h)) "a" (world_of moved) stripped (client "conflict") refl
      contended_run

abbrev settled : World
settled = record stripped {
  project = record moved {
    status = record {
      used = some (
          ("configmaps", whole 1)
          ∷ ("pods", whole 0)
          ∷ ("cpu", whole 0)
          ∷ ("services", whole 0)
          ∷ ("services.nodeports", whole 0)
          ∷ []);
      namespaces = "a1" ∷ "a2" ∷ [];
    };
  };
}

first_run : reconcile two_cpu name_lists world "a" (world_of moved) ≡ (ok tt, settled)
unfolding reconcile update_usage removed_namespaces remove_annotation_from_objects strip_namespaces
    strip_namespace strip_kind strip_items strip_object is_annotation_exists remove_annotation
    lookup erase insert count_namespaces count_namespace count_kind count_pods charge_pods add_used
    add_limited count_services charge_services pod_totals pod_charges count_where at reset_used ◌+ℤ◌
first_run = refl

reconcile_settled_example :
    (used : ResourceList ℤ) × (world.get "a" settled
      ≡ ok (with_status two_cpu name_lists world moved used))
    × (reconcile two_cpu name_lists world "a" settled
        ≡ world.update_status (with_status two_cpu name_lists world moved used) settled)
reconcile_settled_example =
    reconcile_settled two_cpu name_lists world world-IsStatusStore moved (world_of moved) settled
      refl refl first_run

-- A deletion right after the namespace a3 left the project.
abbrev released : World
released = record {
  config_maps =
      plain (record (meta_of "x" "a1") { annotations = some [] })
      ∷ plain (annotated_meta "y" "a3" "a")
      ∷ [];
  project = record leaving { meta = record leaving.meta { finalizers = [] } };
}

deletion_run : reconcile two_cpu name_lists world "a" (world_of leaving) ≡ (ok tt, released)
unfolding reconcile finish_deletion remove_annotation_from_objects strip_namespaces strip_namespace
    strip_kind strip_items strip_object is_annotation_exists remove_annotation remove_finalizer
    without lookup erase
deletion_run = refl

project_update-list :
    (prq : ProjectResourceQuota ℤ) (s s' : World) (k : Kind) (ns : String)
    → world.update_project prq s ≡ (ok tt, s')
    → list_of k ns s' ≡ list_of k ns s
project_update-list prq s s' k ns h =
    ap (λ p. list_of k ns p.1) (sym h) ∙ list_of-project k ns prq s

deletion_elsewhere_example :
    list_of Kind.config_map "a3" released ≡ list_of Kind.config_map "a3" (world_of leaving)
deletion_elsewhere_example =
    deletion_elsewhere two_cpu name_lists world world-IsStore project_update-list "a"
      (world_of leaving) released leaving refl refl deletion_run Kind.config_map "a3" refl
