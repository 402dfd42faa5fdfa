-- ===== src/Samples.antt =====
-- Concrete values on which the theorems are tried: quantities that are their own amounts, objects
-- whose remaining body is empty, two projects, and a reader and a cluster made of them.
mod Webhooks
mod Projects
mod Usage
mod Cluster
mod Reconciles
mod Estate
mod Starts
mod Growth
mod Fleet
mod Copies
mod Orders
use projectresourcequota.Prelude.{
  ℕ, ◌*◌, String, ◌≡◌, refl, Bool, true, false, Option, none, some, List, [], ◌∷◌, ◌==◌,
}
use projectresourcequota.Prelude.Int.{ℤ, pos, ◌+ℤ◌, compare_ℤ}
use projectresourcequota.Dict.{IsMap, lookup}
use projectresourcequota.Quantity.{Quantity, nano}
use projectresourcequota.Api.{
  ObjectMeta, Object, Pod, PodBody, Service, ServiceBody, ResourceList, ProjectResourceQuota,
}
use projectresourcequota.Api.Result.{Error, Result, ok, err, client}
use projectresourcequota.Api.Client.{Reader}
use projectresourcequota.Webhook.Annotator.Owner.{IsPartition}
use projectresourcequota.Webhook.Project.Namespaces.{meets, ShareNone-of_meets}
use projectresourcequota.Webhook.Pod.{PodResources}

instance abbrev pub exact : Quantity ℤ
exact = record {
  zero_value = pos 0;
  add = ◌+ℤ◌;
  cmp = compare_ℤ;
  deep_copy = λ x. x;
  of_count = λ n. pos (n * nano);
  amount = λ x. x;
  amount-zero_value = refl;
  amount-add = λ x y. refl;
  cmp_lem = λ x y. refl;
  deep_copy_lem = λ x. refl;
  amount-of_count = λ n. refl;
}

-- A whole number of a resource.
abbrev pub whole : ℕ → ℤ
whole n = pos (n * nano)

abbrev pub meta_of : String → String → ObjectMeta
meta_of name namespace = record {
  name = name;
  namespace = namespace;
  annotations = none;
  finalizers = [];
  deletion_timestamp = none;
}

-- The metadata of an object that belongs to a project.
abbrev pub annotated_meta : String → String → String → ObjectMeta
annotated_meta name namespace prq_name = record (meta_of name namespace) {
  annotations = some (("project-resource-quota", prq_name) ∷ []);
}

abbrev pub plain : ObjectMeta → Object (Unit {0})
plain meta = record { meta = meta; body = tt }

abbrev pub pod_of : ObjectMeta → Pod (Unit {0})
pod_of meta = record { meta = meta; body = record { phase = "Running"; rest = tt } }

abbrev pub service_of : ObjectMeta → String → Service (Unit {0})
service_of meta service_type = record {
  meta = meta;
  body = record { service_type = service_type; rest = tt };
}

abbrev pub project_of :
    String → List String → ResourceList ℤ → ResourceList ℤ → ProjectResourceQuota ℤ
project_of name namespaces hard used = record {
  meta = record (meta_of name "") { finalizers = "jenting.io/finalizer" ∷ [] };
  spec = record { namespaces = namespaces; hard = hard };
  status = record { used = some used; namespaces = namespaces };
}

pub cpu-IsMap : IsMap (("cpu", whole 2) ∷ [])
unfolding lookup
cpu-IsMap = (refl, tt)

-- Every pod requests two units of cpu and is limited to none.
abbrev pub two_cpu : PodResources ℤ (Unit {0})
two_cpu = record {
  pod_requests = λ pod. ("cpu", whole 2) ∷ [];
  pod_limits = λ pod. [];
  pod_requests-IsMap = λ pod. cpu-IsMap;
  pod_limits-IsMap = λ pod. tt;
}

abbrev pub team_a : ProjectResourceQuota ℤ
team_a =
    project_of "a" ("a1" ∷ "a2" ∷ [])
      (("configmaps", whole 3)
        ∷ ("pods", whole 4)
        ∷ ("cpu", whole 9)
        ∷ ("services", whole 2)
        ∷ ("services.nodeports", whole 1)
        ∷ [])
      (("configmaps", whole 1) ∷ ("pods", whole 1) ∷ ("cpu", whole 2) ∷ ("services", whole 1) ∷ [])

abbrev pub team_b : ProjectResourceQuota ℤ
team_b = project_of "b" ("b1" ∷ []) (("secrets", whole 1) ∷ []) (("secrets", whole 1) ∷ [])

abbrev pub team_busy : ProjectResourceQuota ℤ
team_busy =
    project_of "a" ("a1" ∷ []) (("pods", whole 9) ∷ ("cpu", whole 5) ∷ [])
      (("pods", whole 2) ∷ ("cpu", whole 4) ∷ [])

-- A project that limits the number of pods and nothing else.
abbrev pub team_c : ProjectResourceQuota ℤ
team_c = project_of "a" ("a1" ∷ []) (("pods", whole 4) ∷ []) (("pods", whole 0) ∷ [])

abbrev pub get_from : List (ProjectResourceQuota ℤ) → String → Result ℤ (ProjectResourceQuota ℤ)
get_from [] name = err (client "not found")
get_from (prq ∷ rest) name = elim (prq.meta.name == name) [
  | true ↦ ok prq
  | false ↦ get_from rest name
]

abbrev pub reader_of : List (ProjectResourceQuota ℤ) → Reader ℤ
reader_of items = record { list = ok items; get = get_from items }

abbrev pub teams : Reader ℤ
teams = reader_of (team_b ∷ team_a ∷ [])

pub teams-IsPartition : IsPartition (team_b ∷ team_a ∷ [])
unfolding meets
teams-IsPartition = ((ShareNone-of_meets ("b1" ∷ []) ("a1" ∷ "a2" ∷ []) refl, tt), (tt, tt))
