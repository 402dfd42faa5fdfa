-- ===== src/Controller/Usage/Counts.antt =====
-- What each of the twenty resources counts: a description of the usage by rows, apart from the code.
use projectresourcequota.Prelude.{String, Bool, not, ◌&&◌, List, [], ◌∷◌, ◌==◌, if◌then◌else◌}
use projectresourcequota.Prelude.Int.{ℤ, pos}
use projectresourcequota.Dict.{has, entries}
use projectresourcequota.Quantity.{Quantity}
use projectresourcequota.Api.{Kind, Object, Body, Pod, ResourceList}
use projectresourcequota.Api.Names.{ResourceName}
use projectresourcequota.Webhook.Pod.{PodResources}
use projectresourcequota.Controller.Cluster.{Client}
use projectresourcequota.Controller.Usage.Sums.{sum_where, total_over, one, amount_at}
use projectresourcequota.Controller.Usage.Tables.{listed}

-- An object belongs to a project if it has the annotation, whatever its value.
abbrev pub belongs : {B : Type 0} → Object B → Bool
belongs obj = has "project-resource-quota" (entries obj.meta.annotations)

abbrev pub is_live_pod : {B : Type 0} → Pod B → Bool
is_live_pod pod =
    belongs pod && (not (pod.body.phase == "Failed") && not (pod.body.phase == "Succeeded"))

-- How a resource is counted: over the objects of a kind, those that pass a test add a measure.
pub record Row (B : Type 0) : Type 0 where
  pub name : ResourceName
  pub kind : Kind
  pub counts : Object (Body B kind) → Bool
  pub measure : Object (Body B kind) → ℤ

-- The resource that has to be limited for a kind to be counted at all.
abbrev pub gate : Kind → ResourceName
gate Kind.config_map = "configmaps"
gate Kind.persistent_volume_claim = "persistentvolumeclaims"
gate Kind.pod = "pods"
gate Kind.replication_controller = "replicationcontrollers"
gate Kind.resource_quota = "resourcequotas"
gate Kind.secret = "secrets"
gate Kind.service = "services"

module _ {B : Type 0} where
  abbrev pub count_rows : List (Row B)
  count_rows =
      record { name = "configmaps"; kind = Kind.config_map; counts = belongs; measure = λ _. one }
      ∷ record {
        name = "persistentvolumeclaims";
        kind = Kind.persistent_volume_claim;
        counts = belongs;
        measure = λ _. one;
      }
      ∷ record {
        name = "replicationcontrollers";
        kind = Kind.replication_controller;
        counts = belongs;
        measure = λ _. one;
      }
      ∷ record {
        name = "resourcequotas";
        kind = Kind.resource_quota;
        counts = belongs;
        measure = λ _. one;
      }
      ∷ record { name = "secrets"; kind = Kind.secret; counts = belongs; measure = λ _. one }
      ∷ record { name = "services"; kind = Kind.service; counts = belongs; measure = λ _. one }
      ∷ record {
        name = "services.nodeports";
        kind = Kind.service;
        counts = λ svc. belongs svc && svc.body.service_type == "NodePort";
        measure = λ _. one;
      }
      ∷ record {
        name = "services.loadbalancers";
        kind = Kind.service;
        counts = λ svc. belongs svc && svc.body.service_type == "LoadBalancer";
        measure = λ _. one;
      }
      ∷ []

module _ {B : Type 0} (requests limits : ResourceName → Pod B → ℤ) where
  -- The rows of the pods, by what a pod requests and is limited to.
  abbrev pub pod_rows_of : List (Row B)
  pod_rows_of =
      record { name = "pods"; kind = Kind.pod; counts = is_live_pod; measure = λ _. one }
      ∷ record { name = "cpu"; kind = Kind.pod; counts = is_live_pod; measure = requests "cpu" }
      ∷ record {
        name = "requests.cpu";
        kind = Kind.pod;
        counts = is_live_pod;
        measure = requests "cpu";
      }
      ∷ record {
        name = "memory";
        kind = Kind.pod;
        counts = is_live_pod;
        measure = requests "memory";
      }
      ∷ record {
        name = "requests.memory";
        kind = Kind.pod;
        counts = is_live_pod;
        measure = requests "memory";
      }
      ∷ record {
        name = "storage";
        kind = Kind.pod;
        counts = is_live_pod;
        measure = requests "storage";
      }
      ∷ record {
        name = "requests.storage";
        kind = Kind.pod;
        counts = is_live_pod;
        measure = requests "storage";
      }
      ∷ record {
        name = "ephemeral-storage";
        kind = Kind.pod;
        counts = is_live_pod;
        measure = requests "ephemeral-storage";
      }
      ∷ record {
        name = "requests.ephemeral-storage";
        kind = Kind.pod;
        counts = is_live_pod;
        measure = requests "ephemeral-storage";
      }
      ∷ record {
        name = "limits.cpu";
        kind = Kind.pod;
        counts = is_live_pod;
        measure = limits "cpu";
      }
      ∷ record {
        name = "limits.memory";
        kind = Kind.pod;
        counts = is_live_pod;
        measure = limits "memory";
      }
      ∷ record {
        name = "limits.ephemeral-storage";
        kind = Kind.pod;
        counts = is_live_pod;
        measure = limits "ephemeral-storage";
      }
      ∷ []

module _ {Q B : Type 0} ⦃q : Quantity Q⦄ (helper : PodResources Q B) where
  abbrev pub requested : ResourceName → Pod B → ℤ
  requested m pod = amount_at (helper.pod_requests pod) m

  abbrev pub limited_to : ResourceName → Pod B → ℤ
  limited_to m pod = amount_at (helper.pod_limits pod) m

  abbrev pub pod_rows : List (Row B)
  pod_rows = pod_rows_of requested limited_to

module _ {Q B S : Type 0} ⦃q : Quantity Q⦄ (helper : PodResources Q B) (client : Client Q B S)
    (hard : ResourceList Q) (s : S) (row : Row B) where
  -- What a row counts in one namespace: nothing, unless its resource and its kind are limited.
  abbrev pub row_charge : String → ℤ
  row_charge namespace =
      if has (gate row.kind) hard
      then (if has row.name hard
          then sum_where row.counts row.measure
              (listed helper client hard s row.name row.kind namespace)
          else pos 0)
      else pos 0

  -- What it counts in all namespaces of a list.
  abbrev pub row_total : List String → ℤ
  row_total namespaces = total_over row_charge namespaces
