-- ===== src/Samples/Fleet.antt =====
-- A pod is created and counted: the theorem on compute resources, at that history. The cluster
-- has pods and one project, and its updates of objects fail.
use projectresourcequota.Prelude.{
  ◌≢◌, ◌⊎◌, String, ◌≡◌, refl, sym, ap, ◌∙◌, true, ◌==◌, eq_iff, eq_refl, Bool-cases, inl, inr,
  some, List, [], ◌∷◌, All, if◌then◌else◌, arith,
}
use projectresourcequota.Prelude.Int.{ℤ, pos, ◌+ℤ◌, ◌≤ℤ◌}
use projectresourcequota.Dict.{lookup, insert, erase}
use projectresourcequota.Api.{Kind, Object, Body, Pod, ProjectResourceQuota}
use projectresourcequota.Api.Result.{Result, ok, err, client}
use projectresourcequota.Api.Client.{Reader}
use projectresourcequota.Util.{is_annotation_exists}
use projectresourcequota.Webhook.Counting.{at, annotated_project, check_count}
use projectresourcequota.Webhook.Pod
use projectresourcequota.Controller.Cluster.{Client}
use projectresourcequota.Controller.Cluster.Laws.{IsStore}
use projectresourcequota.Controller.Strip.{strip_namespaces, remove_annotation_from_objects}
use projectresourcequota.Controller.Usage.{
  reset_used, count_namespaces, count_namespace, count_kind, count_pods, charge_pods,
  count_services, add_used, add_limited, add_resource_list, pod_charges, pod_totals, count_where,
  is_pod_terminated,
}
use projectresourcequota.Controller.Reconcile.{reconcile, update_usage, removed_namespaces}
use projectresourcequota.Controller.Reconcile.Settled.{IsStatusStore}
use projectresourcequota.Webhook.Counting.Limit.{hard_amount}
use projectresourcequota.Quota.Admitted.{IsAdmitted}
use projectresourcequota.Quota.Tally.{IsOneMore}
use projectresourcequota.Quota.History.{IsReading, History}
use projectresourcequota.Quota.Compute.{compute, IsPositive, sum_of, IsRecordedWithin}
use projectresourcequota.Quota.Kept.{compute_bound}
use projectresourcequota.Samples.{
  exact, whole, meta_of, annotated_meta, pod_of, project_of, two_cpu,
}
use projectresourcequota.Samples.Cluster.{name_lists, in_namespace, all_in_namespace}

record Fleet : Type 0 where
  pods : List (Pod (Unit {0}))
  project : ProjectResourceQuota ℤ

abbrev get_stored : String → Fleet → Result ℤ (ProjectResourceQuota ℤ)
get_stored name s = if s.project.meta.name == name then ok s.project else err (client "not found")

abbrev list_of : (k : Kind) → String → Fleet → Result ℤ (List (Object (Body (Unit {0}) k)))
list_of Kind.pod namespace s = ok (in_namespace namespace s.pods)
list_of Kind.config_map namespace s = ok []
list_of Kind.persistent_volume_claim namespace s = ok []
list_of Kind.replication_controller namespace s = ok []
list_of Kind.resource_quota namespace s = ok []
list_of Kind.secret namespace s = ok []
list_of Kind.service namespace s = ok []

abbrev fleet : Client ℤ (Unit {0}) Fleet
fleet = record {
  get = get_stored;
  is_not_found = λ e. true;
  list = list_of;
  update = λ k obj s. (err (client "conflict"), s);
  update_project = λ prq s. (ok tt, record s { project = prq });
  update_status = λ prq s. (ok tt, record s { project = prq });
}

abbrev one_project : Fleet → Reader ℤ
one_project s = record { list = ok (s.project ∷ []); get = λ name. get_stored name s }

list_of-project :
    (k : Kind) (ns : String) (prq : ProjectResourceQuota ℤ) (s : Fleet)
    → list_of k ns (record s { project = prq }) ≡ list_of k ns s
list_of-project Kind.pod ns prq s = refl
list_of-project Kind.config_map ns prq s = refl
list_of-project Kind.persistent_volume_claim ns prq s = refl
list_of-project Kind.replication_controller ns prq s = refl
list_of-project Kind.resource_quota ns prq s = refl
list_of-project Kind.secret ns prq s = refl
list_of-project Kind.service ns prq s = refl

list_of-namespace :
    (k : Kind) (ns : String) (s : Fleet) (items : List (Object (Body (Unit {0}) k)))
    → list_of k ns s ≡ ok items
    → All (λ o. o.meta.namespace ≡ ns) items
list_of-namespace Kind.pod ns s items h =
    let same : in_namespace ns s.pods ≡ items = cc in rw (← same) (all_in_namespace ns s.pods)
list_of-namespace Kind.config_map ns s items h = let same : [] ≡ items = cc in rw (← same) tt
list_of-namespace Kind.persistent_volume_claim ns s items h =
    let same : [] ≡ items = cc in rw (← same) tt
list_of-namespace Kind.replication_controller ns s items h =
    let same : [] ≡ items = cc in rw (← same) tt
list_of-namespace Kind.resource_quota ns s items h = let same : [] ≡ items = cc in rw (← same) tt
list_of-namespace Kind.secret ns s items h = let same : [] ≡ items = cc in rw (← same) tt
list_of-namespace Kind.service ns s items h = let same : [] ≡ items = cc in rw (← same) tt

fleet-IsStore : IsStore fleet
fleet-IsStore = record {
  update-list = λ k obj s s' ns h. absurd (cc h);
  update-other = λ k obj s s' other ns h differ. absurd (cc h);
  list-namespace = list_of-namespace;
}

fleet-IsStatusStore : IsStatusStore fleet
fleet-IsStatusStore = record {
  update_status-get =
      λ prq s s' h. ap (λ p. get_stored prq.meta.name p.1) (sym h) ∙ rw (eq_refl prq.meta.name);
  update_status-list =
      λ prq s s' k ns h. ap (λ p. list_of k ns p.1) (sym h) ∙ list_of-project k ns prq s;
}

get_stored_lem :
    (name : String) (s : Fleet) (prq : ProjectResourceQuota ℤ)
    → get_stored name s ≡ ok prq
    → (s.project.meta.name == name ≡ true) × (s.project ≡ prq)
get_stored_lem name s prq got = elim (Bool-cases (s.project.meta.name == name)) [
  | inl same ↦ (same, cc (rw same at got))
  | inr other ↦ absurd (cc (rw other at got))
]

fleet-IsReading : (name : String) → IsReading fleet one_project name
fleet-IsReading name = record {
  named = λ s prq got.
      let (same, stored) = get_stored_lem name s prq got in
      ap (λ p. p.meta.name) (sym stored) ∙ (eq_iff s.project.meta.name name).0 same;
  read = λ s prq got. got;
  listed = λ s prq got.
      let (same, stored) = get_stored_lem name s prq got in
      ([], [], ap (λ p. ok (p ∷ [])) stored, (tt, tt));
}

requests-positive : (name : String) → pos 0 ≤ℤ at (("cpu", whole 2) ∷ []) name
unfolding at lookup
requests-positive name = elim (Bool-cases ("cpu" == name)) [
  | inl here ↦ rw here (omega arith)
  | inr there ↦ rw there (omega arith)
]

two_cpu-IsPositive : IsPositive two_cpu
unfolding at lookup
two_cpu-IsPositive = record {
  requests = λ m pod. requests-positive m;
  limits = λ m pod. omega arith;
}

-- A project that may have four pods and four units of cpu, and has none.
abbrev team_cpu : ProjectResourceQuota ℤ
team_cpu =
    project_of "a" ("a1" ∷ [])
      (("pods", whole 4) ∷ ("cpu", whole 4) ∷ ("requests.cpu", whole 4) ∷ [])
      (("pods", whole 0) ∷ ("cpu", whole 0) ∷ ("requests.cpu", whole 0) ∷ [])

abbrev vacant : Fleet
vacant = record { pods = []; project = team_cpu }

abbrev manned : Fleet
manned = record { pods = pod_of (annotated_meta "p" "a1" "a") ∷ []; project = team_cpu }

abbrev recorded : Fleet
recorded = record manned {
  project = record team_cpu {
    status = record {
      used = some (("pods", whole 1) ∷ ("cpu", whole 2) ∷ ("requests.cpu", whole 2) ∷ []);
      namespaces = "a1" ∷ [];
    };
  };
}

manned-elsewhere :
    (other : Kind) (ns : String)
    → (Kind.pod ≢ other) ⊎ ("a1" ≢ ns)
    → list_of other ns manned ≡ list_of other ns vacant
manned-elsewhere Kind.pod ns (inl differ) = absurd (differ refl)
manned-elsewhere Kind.pod ns (inr away) = elim (Bool-cases ("a1" == ns)) [
  | inl here ↦ absurd (away ((eq_iff "a1" ns).0 here))
  | inr there ↦ rw there refl
]
manned-elsewhere Kind.config_map ns apart = refl
manned-elsewhere Kind.persistent_volume_claim ns apart = refl
manned-elsewhere Kind.replication_controller ns apart = refl
manned-elsewhere Kind.resource_quota ns apart = refl
manned-elsewhere Kind.secret ns apart = refl
manned-elsewhere Kind.service ns apart = refl

creation : IsOneMore fleet Kind.pod (pod_of (annotated_meta "p" "a1" "a")) vacant manned
creation = record {
  before = [];
  after = [];
  without_it = refl;
  with_it = refl;
  elsewhere = manned-elsewhere;
  projects = λ name. refl;
}

admission :
    IsAdmitted two_cpu
      (one_project vacant)
      Kind.pod
      (pod_of (meta_of "p" "a1"))
      (pod_of (annotated_meta "p" "a1" "a"))
unfolding Pod.default Pod.validate_create Pod.check_pod Pod.check_all Pod.check_quota Pod.checks
    check_count insert lookup annotated_project at ◌+ℤ◌
admission = record { annotated = refl; validated = refl }

fleet_run : reconcile two_cpu name_lists fleet "a" manned ≡ (ok tt, recorded)
unfolding reconcile update_usage removed_namespaces remove_annotation_from_objects strip_namespaces
    is_annotation_exists lookup erase insert count_namespaces count_namespace count_kind count_pods
    charge_pods add_used add_limited add_resource_list count_services pod_totals pod_charges
    count_where is_pod_terminated at reset_used ◌+ℤ◌
fleet_run = refl

manning : History two_cpu name_lists fleet one_project "a" ("a1" ∷ []) 0 vacant 0 recorded
manning =
    History.reconciled
      (History.created History.started (omega arith) Kind.pod (pod_of (meta_of "p" "a1"))
        (pod_of (annotated_meta "p" "a1" "a")) admission creation)
      fleet_run

none_yet : All (IsRecordedWithin fleet team_cpu vacant) (compute two_cpu)
unfolding lookup at ◌+ℤ◌
none_yet = (
  (omega arith, omega arith),
  (
    (omega arith, omega arith),
    (
      (omega arith, omega arith),
      (
        (omega arith, omega arith),
        (
          (omega arith, omega arith),
          (
            (omega arith, omega arith),
            (
              (omega arith, omega arith),
              (
                (omega arith, omega arith),
                (
                  (omega arith, omega arith),
                  ((omega arith, omega arith), ((omega arith, omega arith), tt)),
                ),
              ),
            ),
          ),
        ),
      ),
    ),
  ),
)

compute_bound_example :
    All (λ c. sum_of fleet team_cpu recorded c ≤ℤ hard_amount c.name team_cpu) (compute two_cpu)
unfolding lookup
compute_bound_example =
    compute_bound two_cpu name_lists fleet fleet-IsStore fleet-IsStatusStore one_project team_cpu
      (fleet-IsReading "a") refl (refl, tt) two_cpu-IsPositive vacant refl refl none_yet manning
