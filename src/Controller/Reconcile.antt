-- ===== src/Controller/Reconcile.antt =====
-- `Reconcile` and `findObjects`. A `ctrl.Result` is empty on every path and is not modelled.
pub mod Outcome
pub mod Failure
pub mod Settled
pub mod Enforced
pub mod Blocked
use projectresourcequota.Prelude.{String, none, some, List, [], ◌∷◌, if◌then◌else◌}
use projectresourcequota.Dict.{lookup, entries}
use projectresourcequota.Quantity.{Quantity}
use projectresourcequota.Api.{Object, ProjectResourceQuota, ResourceList, is_deleting}
use projectresourcequota.Api.Names.{
  project_resource_quota_finalizer, project_resource_quota_annotation,
}
use projectresourcequota.Api.Result.{Result, ok, err}
use projectresourcequota.Util.{project_accessor, remove_finalizer}
use projectresourcequota.Webhook.Pod.{PodResources}
use projectresourcequota.Controller.Cluster.{Client, Action, pure, lift, reads, ◌>>=◌, ◌>>◌}
use projectresourcequota.Controller.Strip.{StringSets, remove_annotation_from_objects}
use projectresourcequota.Controller.Usage.{reset_used, count_namespaces}

module _ {Q B S N : Type 0} ⦃q : Quantity Q⦄ (helper : PodResources Q B) (sets : StringSets N)
    (client : Client Q B S) where
  -- The project is being deleted: its objects are stripped before its finalizer goes.
  unfoldable pub finish_deletion : ProjectResourceQuota Q → Action Q S (Unit {0})
  finish_deletion prq = do
    remove_annotation_from_objects client sets (sets.new_string prq.spec.namespaces)
    prq' ← lift (remove_finalizer project_resource_quota_finalizer prq)
    client.update_project prq'

  -- The namespaces that the last reconciliation saw and the specification no longer has.
  unfoldable pub removed_namespaces : ProjectResourceQuota Q → N
  removed_namespaces prq =
      let old_namespaces = sets.new_string prq.status.namespaces in
      let new_namespaces = sets.new_string prq.spec.namespaces in
      sets.difference old_namespaces new_namespaces

  -- The status that a reconciliation records.
  abbrev pub with_status : ProjectResourceQuota Q → ResourceList Q → ProjectResourceQuota Q
  with_status prq used = record prq {
    status = record { used = some used; namespaces = prq.spec.namespaces };
  }

  unfoldable pub update_usage : ProjectResourceQuota Q → Action Q S (Unit {0})
  update_usage prq = do
    remove_annotation_from_objects client sets (removed_namespaces prq)
    used ← reads (λ s.
        count_namespaces helper client prq.spec.hard s prq.spec.namespaces
          (reset_used prq.status.used))
    client.update_status (with_status prq used)

  abbrev pub reconcile_found : Result Q (ProjectResourceQuota Q) → Action Q S (Unit {0})
  reconcile_found (err e) = if client.is_not_found e then pure tt else lift (err e)
  reconcile_found (ok prq) = if is_deleting prq then finish_deletion prq else update_usage prq

  unfoldable pub reconcile : String → Action Q S (Unit {0})
  reconcile name s = reconcile_found (client.get name s) s

-- The names of the projects to reconcile after a change of an object.
unfoldable pub find_objects : {B : Type 0} → Object B → List String
find_objects obj = elim (lookup project_resource_quota_annotation (entries obj.meta.annotations)) [
  | none ↦ []
  | some prq_name ↦ prq_name ∷ []
]
