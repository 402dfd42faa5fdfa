-- ===== src/Webhook/Service/Unmanaged.antt =====
-- What the two webhooks of a service do in a namespace that no project owns.
use projectresourcequota.Prelude.{◌≡◌, none, List, All}
use projectresourcequota.Quantity.{Quantity}
use projectresourcequota.Api.{Service, ProjectResourceQuota}
use projectresourcequota.Api.Result.{ok, err, missing_annotation, ◌>>=◌, ◌>>◌}
use projectresourcequota.Api.Client.{Reader}
use projectresourcequota.Webhook.Annotator.Owner.{IsForeign, annotate_first_foreign}
use projectresourcequota.Webhook.Counting.{annotated_project}
use projectresourcequota.Webhook.Service.{default, validate_create, validate_update}

module _ {Q B : Type 0} ⦃q : Quantity Q⦄ (reader : Reader Q) (svc : Service B)
    (items : List (ProjectResourceQuota Q)) where
  -- A service without the annotation, in a namespace that no listed project owns, is left as it is
  -- by the annotator and may be created; every update to it is refused for the missing annotation.
  pub unmanaged_service :
      reader.list ≡ ok items
      → All (IsForeign svc.meta.namespace) items
      → annotated_project svc ≡ none
      → ((default reader svc >>= λ svc'. validate_create reader svc' >> ok svc') ≡ ok svc)
        × ((old_svc : Service B)
            → (default reader svc >>= λ svc'. validate_update reader old_svc svc')
              ≡ err (missing_annotation "project-resource-quota"))
  unfolding default validate_create validate_update
  unmanaged_service listed foreign fresh = (
    rw (annotate_first_foreign "services" reader svc items listed foreign, fresh),
    λ old_svc. rw (annotate_first_foreign "services" reader svc items listed foreign, fresh),
  )
