-- ===== src/Controller/Usage.antt =====
-- The calculation of a project's usage in `Reconcile`: what is counted in each of its namespaces is
-- added to the map of the status. It only reads the cluster.
pub mod Sums
pub mod Tables
pub mod Counts
pub mod Rows
pub mod Success
pub mod Extent
pub mod Entries
pub mod Order
pub mod Agreement
use projectresourcequota.Prelude.{
  ℕ, ◌+◌, String, Bool, not, ◌&&◌, ◌||◌, Option, none, some, List, [], ◌∷◌, ◌==◌, if◌then◌else◌,
}
use projectresourcequota.Dict.{lookup, has, insert, erase, keys}
use projectresourcequota.Quantity.{Quantity}
use projectresourcequota.Api.{Kind, Object, Body, Pod, Service, ResourceList}
use projectresourcequota.Api.Names.{
  ResourceName, project_resource_quota_annotation, pod_failed, pod_succeeded,
  service_type_node_port, service_type_load_balancer, resource_cpu, resource_memory,
  resource_storage, resource_ephemeral_storage, resource_pods, resource_services,
  resource_replication_controllers, resource_quotas, resource_secrets, resource_config_maps,
  resource_persistent_volume_claims, resource_services_node_ports, resource_services_load_balancers,
  resource_requests_cpu, resource_requests_memory, resource_requests_storage,
  resource_requests_ephemeral_storage, resource_limits_cpu, resource_limits_memory,
  resource_limits_ephemeral_storage,
}
use projectresourcequota.Api.Result.{Result, ok, ◌>>=◌}
use projectresourcequota.Util.{object_accessor, is_annotation_exists}
use projectresourcequota.Webhook.Counting.{at}
use projectresourcequota.Webhook.Pod.{PodResources}
use projectresourcequota.Controller.Cluster.{Client}

module _ {B : Type 0} where
  abbrev pub is_annotated : Object B → Bool
  is_annotated obj = is_annotation_exists obj project_resource_quota_annotation

  unfoldable pub is_pod_terminated : Pod B → Bool
  is_pod_terminated pod = pod.body.phase == pod_failed || pod.body.phase == pod_succeeded

  -- A loop that counts: `count` is the counter so far.
  unfoldable pub count_where : (Object B → Bool) → ℕ → List (Object B) → ℕ
  count_where test count [] = count
  count_where test count (obj ∷ rest) =
      count_where test (if test obj then count + 1 else count) rest

-- The pods that count: those of the project that are not in a terminal phase.
abbrev pub is_counted_pod : {B : Type 0} → Pod B → Bool
is_counted_pod pod = is_annotated pod && not (is_pod_terminated pod)

-- The counters of the services' loop: an annotated service counts, and by its type.
abbrev pub is_of_type : {B : Type 0} → String → Service B → Bool
is_of_type service_type svc = is_annotated svc && svc.body.service_type == service_type

module _ {Q : Type 0} where
  -- `delete(prq.Status.Used, k)` for each key of a `range` over it.
  unfoldable pub erase_each : List String → ResourceList Q → ResourceList Q
  erase_each [] used = used
  erase_each (k ∷ rest) used = erase_each rest (erase k used)

  -- The map to calculate in: a new one, or the old one made empty.
  unfoldable pub reset_used : Option (ResourceList Q) → ResourceList Q
  unfolding erase_each
  reset_used none = []
  reset_used (some used) = erase_each (keys used) used

module _ {Q : Type 0} ⦃q : Quantity Q⦄ where
  -- The new value for a key in `addResourceList`: `current` with the quantity added, or its copy.
  abbrev pub new_entry : Q → Option Q → Q
  new_entry quantity (some current) = q.add current quantity
  new_entry quantity none = q.deep_copy quantity

  unfoldable pub add_entry : ResourceName → Q → ResourceList Q → ResourceList Q
  add_entry name quantity dst = insert name (new_entry quantity (lookup name dst)) dst

  unfoldable pub add_resource_list : ResourceList Q → ResourceList Q → ResourceList Q
  unfolding add_entry
  add_resource_list dst [] = dst
  add_resource_list dst ((name, quantity) ∷ src) =
      add_resource_list (add_entry name quantity dst) src

  -- `used := prq.Status.Used[name]; used.Add(amount); prq.Status.Used[name] = used`
  unfoldable pub add_used : ResourceName → Q → ResourceList Q → ResourceList Q
  add_used name amount used = insert name (q.add (at used name) amount) used

  -- The same for each entry of a table whose resource is limited.
  unfoldable pub add_limited :
      ResourceList Q → List (ResourceName × Q) → ResourceList Q → ResourceList Q
  unfolding add_used
  add_limited hard [] used = used
  add_limited hard ((name, amount) ∷ rest) used =
      add_limited hard rest (if has name hard then add_used name amount used else used)

  -- The resources that pods are charged for, in the order of the code.
  unfoldable pub pod_charges : ResourceList Q → ResourceList Q → List (ResourceName × Q)
  pod_charges total_requests total_limits =
      (resource_cpu, at total_requests resource_cpu)
      ∷ (resource_requests_cpu, at total_requests resource_cpu)
      ∷ (resource_memory, at total_requests resource_memory)
      ∷ (resource_requests_memory, at total_requests resource_memory)
      ∷ (resource_storage, at total_requests resource_storage)
      ∷ (resource_requests_storage, at total_requests resource_storage)
      ∷ (resource_ephemeral_storage, at total_requests resource_ephemeral_storage)
      ∷ (resource_requests_ephemeral_storage, at total_requests resource_ephemeral_storage)
      ∷ (resource_limits_cpu, at total_limits resource_cpu)
      ∷ (resource_limits_memory, at total_limits resource_memory)
      ∷ (resource_limits_ephemeral_storage, at total_limits resource_ephemeral_storage)
      ∷ []

module _ {Q B : Type 0} ⦃q : Quantity Q⦄ (resources : Pod B → ResourceList Q) where
  -- The loop that sums what the counted pods request, or their limits.
  unfoldable pub pod_totals : ResourceList Q → List (Pod B) → ResourceList Q
  unfolding add_resource_list
  pod_totals total [] = total
  pod_totals total (pod ∷ rest) =
      pod_totals (if is_counted_pod pod then add_resource_list total (resources pod) else total)
        rest

module _ {Q B S : Type 0} ⦃q : Quantity Q⦄ (helper : PodResources Q B) (client : Client Q B S)
    (hard : ResourceList Q) (namespace : String) (s : S) where
  -- What a kind adds if the project limits it.
  unfoldable pub count_kind : (k : Kind) → ResourceName → ResourceList Q → Result Q (ResourceList Q)
  count_kind k name used =
      if has name hard
      then (do
        items ← client.list k namespace s
        ok (add_used name (q.of_count (count_where is_annotated 0 items)) used))
      else ok used

  unfoldable pub charge_pods : List (Pod B) → ResourceList Q → ResourceList Q
  charge_pods pods used =
      let total_requests = pod_totals helper.pod_requests [] pods in
      let total_limits = pod_totals helper.pod_limits [] pods in
      add_limited hard (pod_charges total_requests total_limits)
        (add_used resource_pods (q.of_count (count_where is_counted_pod 0 pods)) used)

  unfoldable pub count_pods : ResourceList Q → Result Q (ResourceList Q)
  unfolding charge_pods
  count_pods used =
      if has resource_pods hard
      then (do pods ← client.list Kind.pod namespace s; ok (charge_pods pods used))
      else ok used

  unfoldable pub charge_services : List (Service B) → ResourceList Q → ResourceList Q
  charge_services services used =
      add_limited hard
        ((
          resource_services_node_ports,
          q.of_count (count_where (is_of_type service_type_node_port) 0 services),
        )
          ∷ (
            resource_services_load_balancers,
            q.of_count (count_where (is_of_type service_type_load_balancer) 0 services),
          )
          ∷ [])
        (add_used resource_services (q.of_count (count_where is_annotated 0 services)) used)

  unfoldable pub count_services : ResourceList Q → Result Q (ResourceList Q)
  unfolding charge_services
  count_services used =
      if has resource_services hard
      then (do services ← client.list Kind.service namespace s; ok (charge_services services used))
      else ok used

  -- The body of the loop over `prq.Spec.Namespaces`.
  unfoldable pub count_namespace : ResourceList Q → Result Q (ResourceList Q)
  count_namespace used = do
    used ← count_kind Kind.config_map resource_config_maps used
    used ← count_kind Kind.persistent_volume_claim resource_persistent_volume_claims used
    used ← count_pods used
    used ← count_kind Kind.replication_controller resource_replication_controllers used
    used ← count_kind Kind.resource_quota resource_quotas used
    used ← count_kind Kind.secret resource_secrets used
    count_services used

module _ {Q B S : Type 0} ⦃q : Quantity Q⦄ (helper : PodResources Q B) (client : Client Q B S)
    (hard : ResourceList Q) (s : S) where
  unfoldable pub count_namespaces : List String → ResourceList Q → Result Q (ResourceList Q)
  count_namespaces [] used = ok used
  count_namespaces (namespace ∷ rest) used = do
    used ← count_namespace helper client hard namespace s used
    count_namespaces rest used
