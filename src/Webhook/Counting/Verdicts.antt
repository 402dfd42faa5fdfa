-- ===== src/Webhook/Counting/Verdicts.antt =====
-- The verdicts of the five validators that have only a count, on every branch.
use projectresourcequota.Prelude.{if◌then◌else◌, ◌∙◌, ℕ, String, ◌+◌, ◌≤◌, ◌≡◌, ◌↔◌, some}
use projectresourcequota.Prelude.Int.{ltb_ℤ}
use projectresourcequota.Quantity.{Quantity}
use projectresourcequota.Api.{Object, ProjectResourceQuota}
use projectresourcequota.Api.Names.{
  ResourceName, resource_config_maps, resource_persistent_volume_claims,
  resource_replication_controllers, resource_quotas, resource_secrets,
}
use projectresourcequota.Api.Result.{Verdict, ok, err, over_count}
use projectresourcequota.Api.Client.{Reader}
use projectresourcequota.Webhook.ConfigMap
use projectresourcequota.Webhook.PersistentVolumeClaim
use projectresourcequota.Webhook.ReplicationController
use projectresourcequota.Webhook.ResourceQuota
use projectresourcequota.Webhook.Secret
use projectresourcequota.Webhook.Counting.{
  hard_of, used_of, check_count, annotated_project, count_create,
}
use projectresourcequota.Webhook.Counting.Limit.{
  hard_amount, used_amount, HasRoom_whole, check_count_lem, check_count_room, room_of_ok,
}

-- The verdict that a limit on a count calls for.
abbrev pub verdict_of :
    {Q : Type 0} ⦃q : Quantity Q⦄ → ResourceName → ProjectResourceQuota Q → Verdict Q
verdict_of name prq =
    if ltb_ℤ (used_amount name prq) (hard_amount name prq)
    then ok tt
    else err (over_count name (used_of prq name) (hard_of prq name))

module _ {Q B : Type 0} ⦃q : Quantity Q⦄ (reader : Reader Q) (obj : Object B) {prq_name : String}
    (annotated : annotated_project obj ≡ some prq_name) where
  pub count_create-ok :
      (name : ResourceName) {prq : ProjectResourceQuota Q}
      → reader.get prq_name ≡ ok prq
      → count_create name reader obj ≡ check_count name prq
  unfolding count_create
  count_create-ok name got = rw (annotated, got)

module _ {Q B : Type 0} ⦃q : Quantity Q⦄ (reader : Reader Q) (obj : Object B) {prq_name : String}
    {prq : ProjectResourceQuota Q} (annotated : annotated_project obj ≡ some prq_name)
    (got : reader.get prq_name ≡ ok prq) where
  pub decides : (name : ResourceName) → count_create name reader obj ≡ verdict_of name prq
  decides name = count_create-ok reader obj annotated name got ∙ check_count_lem name prq

  -- For an object that is annotated with a project that can be fetched, the creation of a ConfigMap,
  -- a PersistentVolumeClaim, a ReplicationController, a ResourceQuota or a Secret is accepted if the
  -- project's usage of the resource of that kind is below its limit, and is otherwise refused with
  -- the resource, the usage and the limit; a missing entry counts as zero on both sides.
  pub validate_create_decides :
      (ConfigMap.validate_create reader obj ≡ verdict_of resource_config_maps prq)
      × (PersistentVolumeClaim.validate_create reader obj
          ≡ verdict_of resource_persistent_volume_claims prq)
      × (ReplicationController.validate_create reader obj
          ≡ verdict_of resource_replication_controllers prq)
      × (ResourceQuota.validate_create reader obj ≡ verdict_of resource_quotas prq)
      × (Secret.validate_create reader obj ≡ verdict_of resource_secrets prq)
  unfolding ConfigMap.validate_create PersistentVolumeClaim.validate_create
      ReplicationController.validate_create ResourceQuota.validate_create Secret.validate_create
  validate_create_decides = (
    decides resource_config_maps,
    decides resource_persistent_volume_claims,
    decides resource_replication_controllers,
    decides resource_quotas,
    decides resource_secrets,
  )

  -- For a project whose usage and limit of a resource are the whole numbers k and n, the creation
  -- of one more object is accepted exactly when k + 1 is within n.
  pub count_create_whole :
      (name : ResourceName) (k n : ℕ)
      → used_amount name prq ≡ q.amount (q.of_count k)
      → hard_amount name prq ≡ q.amount (q.of_count n)
      → (count_create name reader obj ≡ ok tt) ↔ (k + 1 ≤ n)
  count_create_whole name k n used hard =
      let fits = HasRoom_whole name prq k n used hard in
      rw (count_create-ok reader obj annotated name got)
        ((λ h. fits.0 (room_of_ok name prq h)), (λ h. check_count_room name prq (fits.1 h)))
