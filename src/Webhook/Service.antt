-- ===== src/Webhook/Service.antt =====
-- api/v1/service_webhook.go: the annotator and the validator of Services.
pub mod Verdicts
pub mod Unmanaged
use projectresourcequota.Prelude.{String, not, Option, none, some, ◌&&◌, ◌==◌, if◌then◌else◌}
use projectresourcequota.Quantity.{Quantity}
use projectresourcequota.Api.{Service, ProjectResourceQuota}
use projectresourcequota.Api.Names.{
  project_resource_quota_annotation, resource_services, resource_services_node_ports,
  resource_services_load_balancers, service_type_node_port, service_type_load_balancer,
}
use projectresourcequota.Api.Result.{Result, Verdict, ok, err, missing_annotation, ◌>>=◌, ◌>>◌}
use projectresourcequota.Api.Client.{Reader}
use projectresourcequota.Webhook.Annotator.{annotate_first}
use projectresourcequota.Webhook.Counting.{check_count, against_project, annotated_project}

unfoldable pub default : {Q B : Type 0} → Reader Q → Service B → Result Q (Service B)
unfolding annotate_first
default reader svc = annotate_first resource_services reader svc

module _ {Q : Type 0} ⦃q : Quantity Q⦄ where
  unfoldable pub validate_service : ProjectResourceQuota Q → Verdict Q
  validate_service prq = check_count resource_services prq

  unfoldable pub validate_service_node_port : ProjectResourceQuota Q → Verdict Q
  validate_service_node_port prq = check_count resource_services_node_ports prq

  unfoldable pub validate_service_load_balancer : ProjectResourceQuota Q → Verdict Q
  validate_service_load_balancer prq = check_count resource_services_load_balancers prq

  -- The `switch svc.Spec.Type` of `ValidateCreate`.
  unfoldable pub check_type : String → ProjectResourceQuota Q → Verdict Q
  unfolding validate_service_node_port validate_service_load_balancer
  check_type service_type prq =
      if service_type == service_type_node_port
      then validate_service_node_port prq
      else if service_type == service_type_load_balancer
      then validate_service_load_balancer prq
      else ok tt

  -- The two tests of `ValidateUpdate` on the old and the new type.
  unfoldable pub check_new_type : String → String → ProjectResourceQuota Q → Verdict Q
  unfolding validate_service_node_port validate_service_load_balancer
  check_new_type old_type new_type prq =
      if new_type == service_type_node_port && not (old_type == service_type_node_port)
      then validate_service_node_port prq
      else if new_type == service_type_load_balancer && not (old_type == service_type_load_balancer)
      then validate_service_load_balancer prq
      else ok tt

module _ {Q B : Type 0} ⦃q : Quantity Q⦄ where
  unfoldable pub validate_create : Reader Q → Service B → Verdict Q
  unfolding check_type
  validate_create reader svc =
      against_project reader (λ prq. validate_service prq >> check_type svc.body.service_type prq)
        (annotated_project svc)

  -- `ValidateUpdate` once the annotation was looked up.
  abbrev pub update_annotated : Reader Q → Service B → Service B → Option String → Verdict Q
  update_annotated reader old_svc new_svc none =
      err (missing_annotation project_resource_quota_annotation)
  update_annotated reader old_svc new_svc (some prq_name) = do
    prq ← reader.get prq_name
    validate_service prq
    check_new_type old_svc.body.service_type new_svc.body.service_type prq

  unfoldable pub validate_update : Reader Q → Service B → Service B → Verdict Q
  unfolding check_new_type
  validate_update reader old_svc new_svc =
      update_annotated reader old_svc new_svc (annotated_project new_svc)

  abbrev pub validate_delete : Reader Q → Service B → Verdict Q
  validate_delete reader svc = ok tt
