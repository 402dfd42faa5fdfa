-- ===== src/Samples/Growth.antt =====
-- A config map is created and counted: the theorem on the limits of a project, at that history.
use projectresourcequota.Prelude.{
  ℕ, ◌+◌, ◌≢◌, ◌⊎◌, ◌*◌, ◌≤◌, String, ◌≡◌, refl, sym, ap, ◌∙◌, true, ◌==◌, eq_iff, eq_refl,
  Bool-cases, inl, inr, some, [], ◌∷◌, if◌then◌else◌, arith,
}
use projectresourcequota.Prelude.Int.{ℤ, pos, ◌+ℤ◌}
use projectresourcequota.Dict.{lookup, insert, erase}
use projectresourcequota.Quantity.{nano}
use projectresourcequota.Api.{Kind, ProjectResourceQuota}
use projectresourcequota.Api.Result.{Result, ok, err, client}
use projectresourcequota.Api.Client.{Reader}
use projectresourcequota.Util.{is_annotation_exists, remove_annotation}
use projectresourcequota.Controller.Cluster.{Client}
use projectresourcequota.Controller.Strip.{
  remove_annotation_from_objects, strip_namespaces, strip_namespace, strip_kind, strip_items,
  strip_object,
}
use projectresourcequota.Controller.Reconcile.{reconcile, removed_namespaces, update_usage}
use projectresourcequota.Controller.Usage.{
  count_namespaces, count_namespace, count_kind, count_pods, charge_pods, add_used, add_limited,
  count_services, charge_services, pod_totals, pod_charges, count_where, reset_used,
}
use projectresourcequota.Webhook.Counting.{annotated_project, at}
use projectresourcequota.Webhook.ConfigMap
use projectresourcequota.Controller.Cluster.Laws.{IsStore}
use projectresourcequota.Controller.Reconcile.Settled.{IsStatusStore}
use projectresourcequota.Quota.Admitted.{IsAdmitted}
use projectresourcequota.Quota.Tally.{IsOneMore, tally}
use projectresourcequota.Quota.History.{IsReading, History}
use projectresourcequota.Quota.Bounded.{quota_bound}
use projectresourcequota.Samples.{exact, whole, meta_of, annotated_meta, plain, project_of, two_cpu}
use projectresourcequota.Samples.Cluster.{
  World, world, name_lists, list_of, world-IsStore, world-IsStatusStore,
}

abbrev get_stored : String → World → Result ℤ (ProjectResourceQuota ℤ)
get_stored name s = if s.project.meta.name == name then ok s.project else err (client "not found")

-- The cluster of one project, which is found by its name only.
abbrev shelf : Client ℤ (Unit {0}) World
shelf = record world { get = get_stored }

abbrev one_project : World → Reader ℤ
one_project s = record { list = ok (s.project ∷ []); get = λ name. get_stored name s }

get_stored_lem :
    (name : String) (s : World) (prq : ProjectResourceQuota ℤ)
    → get_stored name s ≡ ok prq
    → (s.project.meta.name == name ≡ true) × (s.project ≡ prq)
get_stored_lem name s prq got = elim (Bool-cases (s.project.meta.name == name)) [
  | inl same ↦ (same, cc (rw same at got))
  | inr other ↦ absurd (cc (rw other at got))
]

shelf-IsReading : (name : String) → IsReading shelf one_project name
shelf-IsReading name = record {
  named = λ s prq got.
      let (same, stored) = get_stored_lem name s prq got in
      ap (λ p. p.meta.name) (sym stored) ∙ (eq_iff s.project.meta.name name).0 same;
  read = λ s prq got. got;
  listed = λ s prq got.
      let (same, stored) = get_stored_lem name s prq got in
      ([], [], ap (λ p. ok (p ∷ [])) stored, (tt, tt));
}

shelf-IsStore : IsStore shelf
shelf-IsStore = record {
  update-list = world-IsStore.update-list;
  update-other = world-IsStore.update-other;
  list-namespace = world-IsStore.list-namespace;
}

shelf-IsStatusStore : IsStatusStore shelf
shelf-IsStatusStore = record {
  update_status-get =
      λ prq s s' h. ap (λ p. get_stored prq.meta.name p.1) (sym h) ∙ rw (eq_refl prq.meta.name);
  update_status-list = world-IsStatusStore.update_status-list;
}

-- A project that may have one config map, and has none.
abbrev team_one : ProjectResourceQuota ℤ
team_one = project_of "a" ("a1" ∷ []) (("configmaps", whole 1) ∷ []) (("configmaps", whole 0) ∷ [])

abbrev vacant : World
vacant = record { config_maps = []; project = team_one }

abbrev grown : World
grown = record { config_maps = plain (annotated_meta "x" "a1" "a") ∷ []; project = team_one }

abbrev recorded : World
recorded = record grown {
  project = record team_one {
    status = record { used = some (("configmaps", whole 1) ∷ []); namespaces = "a1" ∷ [] };
  };
}

grown-elsewhere :
    (other : Kind) (ns : String)
    → (Kind.config_map ≢ other) ⊎ ("a1" ≢ ns)
    → list_of other ns grown ≡ list_of other ns vacant
grown-elsewhere Kind.config_map ns (inl differ) = absurd (differ refl)
grown-elsewhere Kind.config_map ns (inr away) = elim (Bool-cases ("a1" == ns)) [
  | inl here ↦ absurd (away ((eq_iff "a1" ns).0 here))
  | inr there ↦ rw there refl
]
grown-elsewhere Kind.persistent_volume_claim ns apart = refl
grown-elsewhere Kind.pod ns apart = refl
grown-elsewhere Kind.replication_controller ns apart = refl
grown-elsewhere Kind.resource_quota ns apart = refl
grown-elsewhere Kind.secret ns apart = refl
grown-elsewhere Kind.service ns apart = refl

creation : IsOneMore shelf Kind.config_map (plain (annotated_meta "x" "a1" "a")) vacant grown
creation = record {
  before = [];
  after = [];
  without_it = refl;
  with_it = refl;
  elsewhere = grown-elsewhere;
  projects = λ name. refl;
}

admission :
    IsAdmitted two_cpu
      (one_project vacant)
      Kind.config_map
      (plain (meta_of "x" "a1"))
      (plain (annotated_meta "x" "a1" "a"))
unfolding ConfigMap.default ConfigMap.validate_create insert lookup annotated_project at
admission = record { annotated = refl; validated = refl }

growth_run : reconcile two_cpu name_lists shelf "a" grown ≡ (ok tt, recorded)
unfolding reconcile update_usage removed_namespaces remove_annotation_from_objects strip_namespaces
    strip_namespace strip_kind strip_items strip_object is_annotation_exists remove_annotation
    lookup erase insert count_namespaces count_namespace count_kind count_pods charge_pods add_used
    add_limited count_services charge_services pod_totals pod_charges count_where at reset_used ◌+ℤ◌
growth_run = refl

growth : History two_cpu name_lists shelf one_project "a" ("a1" ∷ []) 0 vacant 0 recorded
growth =
    History.reconciled
      (History.created History.started (omega arith) Kind.config_map (plain (meta_of "x" "a1"))
        (plain (annotated_meta "x" "a1" "a")) admission creation)
      growth_run

quota_bound_example :
    (c : ℕ) × (tally shelf two_cpu
        (("configmaps", whole 1) ∷ [])
        recorded
        Kind.config_map
        ("a1" ∷ [])
      ≡ pos (c * nano))
    × (c ≤ 1 + 0)
unfolding lookup at ◌+ℤ◌
quota_bound_example =
    quota_bound two_cpu name_lists shelf shelf-IsStore shelf-IsStatusStore one_project team_one
      (shelf-IsReading "a") Kind.config_map refl (refl, tt) 0 1 vacant refl refl refl (omega arith)
      (omega arith) growth
