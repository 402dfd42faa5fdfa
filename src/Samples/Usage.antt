-- ===== src/Samples/Usage.antt =====
-- The theorems on the controller, at a small cluster.
-- The state of this cluster is a list of objects for each kind, which the client only reads.
use projectresourcequota.Prelude.{
  ◌≡◌, true, String, refl, false, some, List, [], ◌∷◌, ◌++◌, ◌==◌, All, if◌then◌else◌,
}
use projectresourcequota.Prelude.Int.{ℤ, ◌+ℤ◌}
use projectresourcequota.Dict.{has, lookup, insert, erase}
use projectresourcequota.Api.{Kind, Body, Object, ProjectResourceQuota, ResourceList}
use projectresourcequota.Api.Result.{ok}
use projectresourcequota.Util.{is_annotation_exists}
use projectresourcequota.Webhook.Counting.{at, annotated_project}
use projectresourcequota.Controller.Cluster.{Client}
use projectresourcequota.Controller.Usage.{
  reset_used, count_namespaces, count_namespace, count_kind, count_pods, charge_pods,
  count_services, add_used, add_limited, add_resource_list, pod_charges, pod_totals, count_where,
  is_pod_terminated,
}
use projectresourcequota.Controller.Usage.Counts.{count_rows, pod_rows}
use projectresourcequota.Controller.Reconcile.{with_status}
use projectresourcequota.Controller.Reconcile.Enforced.{IsEnforced, create_by_cluster}
use projectresourcequota.Samples.Cluster.{name_lists}
use projectresourcequota.Controller.Usage.Entries.{usage_entries}
use projectresourcequota.Controller.Usage.Rows.{RowCounted, usage_rows}
use projectresourcequota.Samples.{
  reader_of, plain, exact, whole, meta_of, annotated_meta, pod_of, two_cpu, team_busy,
}

-- The cluster with one list of objects for each kind.
abbrev pub Objects : Type 0
Objects = (k : Kind) → List (Object (Body (Unit {0}) k))

abbrev in_namespace : {B : Type 0} → String → List (Object B) → List (Object B)
in_namespace namespace [] = []
in_namespace namespace (obj ∷ rest) =
    let found = in_namespace namespace rest in
    if obj.meta.namespace == namespace then obj ∷ found else found

-- A client that only reads: what it is told to write is lost.
abbrev pub reads_only : ProjectResourceQuota ℤ → Client ℤ (Unit {0}) Objects
reads_only prq = record {
  get = λ name s. ok prq;
  is_not_found = λ e. false;
  list = λ k namespace s. ok (in_namespace namespace (s k));
  update = λ k obj s. (ok tt, s);
  update_project = λ p s. (ok tt, s);
  update_status = λ p s. (ok tt, s);
}

abbrev pub two_pods : Objects
two_pods Kind.pod =
    pod_of (annotated_meta "p" "a1" "a")
    ∷ pod_of (annotated_meta "q" "a1" "a")
    ∷ pod_of (meta_of "r" "a1")
    ∷ []
two_pods _ = []

abbrev counted : ResourceList ℤ
counted = ("pods", whole 2) ∷ ("cpu", whole 4) ∷ []

run :
    count_namespaces two_cpu
      (reads_only team_busy)
      team_busy.spec.hard
      two_pods
      ("a1" ∷ [])
      (reset_used (some counted))
    ≡ ok counted
unfolding reset_used count_namespaces count_namespace count_kind count_pods charge_pods add_limited
    add_used pod_charges pod_totals count_where is_pod_terminated add_resource_list lookup insert
    erase ◌+ℤ◌ count_services at is_annotation_exists
run = refl

usage_rows_example :
    All
      (RowCounted two_cpu (reads_only team_busy) team_busy.spec.hard two_pods counted ("a1" ∷ []))
      (count_rows ++ pod_rows two_cpu)
usage_rows_example =
    usage_rows two_cpu (reads_only team_busy) team_busy.spec.hard two_pods ("a1" ∷ [])
      (some counted) counted run

usage_entries_example : has "cpu" team_busy.spec.hard ≡ true
unfolding lookup
usage_entries_example =
    usage_entries two_cpu (reads_only team_busy) team_busy.spec.hard two_pods ("a1" ∷ [])
      (some counted) counted run "cpu" refl

-- The project as the reconciliation of this cluster leaves it, and a new object of it.
create_by_cluster_example :
    All
      (IsEnforced two_cpu name_lists
        (reads_only team_busy)
        team_busy
        two_pods
        run
        (reader_of (with_status two_cpu name_lists (reads_only team_busy) team_busy counted ∷ []))
        (plain (annotated_meta "x" "a1" "a")))
      count_rows
unfolding annotated_project lookup
create_by_cluster_example =
    create_by_cluster two_cpu name_lists (reads_only team_busy) team_busy two_pods run
      (reader_of (with_status two_cpu name_lists (reads_only team_busy) team_busy counted ∷ []))
      (plain (annotated_meta "x" "a1" "a")) refl refl
