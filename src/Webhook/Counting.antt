-- ===== src/Webhook/Counting.antt =====
-- The check of a count against its limit, and the `ValidateCreate` methods of the kinds that have
-- only a count (api/v1/configmap_webhook.go, persistentvolumeclaim_webhook.go,
-- replicationcontroller_webhook.go, resourcequota_webhook.go and secret_webhook.go).
pub mod Limit
pub mod Verdicts
pub mod Admission
use projectresourcequota.Prelude.{String, Option, none, some, not}
use projectresourcequota.Dict.{lookup, entries}
use projectresourcequota.Quantity.{Quantity, is_above}
use projectresourcequota.Api.{Object, ResourceList, ProjectResourceQuota}
use projectresourcequota.Api.Names.{ResourceName, project_resource_quota_annotation}
use projectresourcequota.Api.Result.{Verdict, ok, over_count, ◌>>=◌, refuse_if}
use projectresourcequota.Api.Client.{Reader}

-- `obj.Annotations[ProjectResourceQuotaAnnotation]`
unfoldable pub annotated_project : {B : Type 0} → Object B → Option String
annotated_project obj = lookup project_resource_quota_annotation (entries obj.meta.annotations)

module _ {Q : Type 0} ⦃q : Quantity Q⦄ where
  abbrev pub or_zero : Option Q → Q
  or_zero none = q.zero_value
  or_zero (some x) = x

  -- `rl[name]`
  unfoldable pub at : ResourceList Q → ResourceName → Q
  at rl name = or_zero (lookup name rl)

  -- `prq.Spec.Hard[name]`
  abbrev pub hard_of : ProjectResourceQuota Q → ResourceName → Q
  hard_of prq name = at prq.spec.hard name

  -- `prq.Status.Used[name]`
  abbrev pub used_of : ProjectResourceQuota Q → ResourceName → Q
  used_of prq name = at (entries prq.status.used) name

  -- `if hard.Cmp(used) != 1 { return fmt.Errorf("over project resource quota. …") }`
  unfoldable pub check_count : ResourceName → ProjectResourceQuota Q → Verdict Q
  check_count name prq =
      let used = used_of prq name in
      let hard = hard_of prq name in
      refuse_if (not (is_above hard used)) (over_count name used hard)

  -- The frame of `ValidateCreate`: an object with no annotation is accepted, else the project that
  -- the annotation names is fetched, and checked.
  abbrev pub against_project :
      Reader Q → (ProjectResourceQuota Q → Verdict Q) → Option String → Verdict Q
  against_project reader check none = ok tt
  against_project reader check (some prq_name) = reader.get prq_name >>= check

  unfoldable pub count_create : {B : Type 0} → ResourceName → Reader Q → Object B → Verdict Q
  unfolding check_count
  count_create name reader obj = against_project reader (check_count name) (annotated_project obj)
