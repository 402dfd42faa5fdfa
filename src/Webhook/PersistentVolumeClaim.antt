-- ===== src/Webhook/PersistentVolumeClaim.antt =====
-- api/v1/persistentvolumeclaim_webhook.go: the annotator and the validator of PersistentVolumeClaims.
use projectresourcequota.Quantity.{Quantity}
use projectresourcequota.Api.{Object}
use projectresourcequota.Api.Names.{resource_persistent_volume_claims}
use projectresourcequota.Api.Result.{Result, Verdict, ok}
use projectresourcequota.Api.Client.{Reader}
use projectresourcequota.Webhook.Annotator.{annotate_first}
use projectresourcequota.Webhook.Counting.{count_create}

unfoldable pub default : {Q B : Type 0} → Reader Q → Object B → Result Q (Object B)
unfolding annotate_first
default reader obj = annotate_first resource_persistent_volume_claims reader obj

module _ {Q B : Type 0} ⦃q : Quantity Q⦄ where
  unfoldable pub validate_create : Reader Q → Object B → Verdict Q
  unfolding count_create
  validate_create reader obj = count_create resource_persistent_volume_claims reader obj

  -- An update and a deletion are accepted without a check.
  abbrev pub validate_update : Reader Q → Object B → Object B → Verdict Q
  validate_update reader old_obj new_obj = ok tt

  abbrev pub validate_delete : Reader Q → Object B → Verdict Q
  validate_delete reader obj = ok tt
