-- ===== src/Webhook/Service/Verdicts.antt =====
-- The verdicts on Services: by the count of services and, by type, of node ports and of load
-- balancers.
use projectresourcequota.Prelude.{
  String, ◌≡◌, refl, ◌↔◌, Option, none, some, ◌==◌, eq_iff, arith, if◌then◌else◌,
}
use projectresourcequota.Quantity.{Quantity}
use projectresourcequota.Api.{Service, ProjectResourceQuota}
use projectresourcequota.Api.Names.{
  ResourceName, resource_services, resource_services_node_ports, resource_services_load_balancers,
  service_type_node_port, service_type_load_balancer,
}
use projectresourcequota.Api.Result.{Verdict, ok, err, ◌>>◌}
use projectresourcequota.Api.Client.{Reader}
use projectresourcequota.Webhook.Counting.{check_count, annotated_project}
use projectresourcequota.Webhook.Counting.Limit.{HasRoom, check_count_iff}
use projectresourcequota.Webhook.Service.{
  check_type, check_new_type, validate_service, validate_create, validate_update,
}

-- What a service of a type counts against beside the count of services.
abbrev pub typed_resource : String → Option ResourceName
typed_resource service_type =
    if service_type == service_type_node_port
    then some resource_services_node_ports
    else if service_type == service_type_load_balancer
    then some resource_services_load_balancers
    else none

module _ {Q : Type 0} ⦃q : Quantity Q⦄ (prq : ProjectResourceQuota Q) where
  -- There is room for one more of a resource, if one is named.
  abbrev pub HasRoomFor : Option ResourceName → Type 0
  HasRoomFor none = Unit
  HasRoomFor (some name) = HasRoom name prq

  check_each : Option ResourceName → Verdict Q
  check_each none = ok tt
  check_each (some name) = check_count name prq

  check_each_iff : (o : Option ResourceName) → (check_each o ≡ ok tt) ↔ HasRoomFor o
  unfolding check_each
  check_each_iff none = ((λ h. tt), (λ h. refl))
  check_each_iff (some name) = check_count_iff name prq

  check_type-each :
      (service_type : String)
      → check_type service_type prq ≡ check_each (typed_resource service_type)
  unfolding check_type check_each
  check_type-each service_type = ground arith

  -- A type counts anew in an update only if it is not the old one.
  check_new_type-each :
      (old_type new_type : String)
      → check_new_type old_type new_type prq
        ≡ check_each (if old_type == new_type then none else typed_resource new_type)
  unfolding check_new_type check_each
  check_new_type-each old_type new_type = ground (
    arith,
    eq_iff old_type new_type,
    eq_iff new_type service_type_node_port,
    eq_iff new_type service_type_load_balancer,
    eq_iff old_type service_type_node_port,
    eq_iff old_type service_type_load_balancer,
  )

  -- Two checks in a row accept exactly when both do.
  both : (a b : Verdict Q) → ((a >> b) ≡ ok tt) ↔ ((a ≡ ok tt) × (b ≡ ok tt))
  both (ok tt) b = ((λ h. (refl, h)), (λ h. h.1))
  both (err e) b = ((λ h. (cc, cc)), (λ h. h.0))

  both_have_room :
      (o : Option ResourceName)
      → ((check_count resource_services prq >> check_each o) ≡ ok tt)
        ↔ (HasRoom resource_services prq × HasRoomFor o)
  both_have_room o =
      let parts = both (check_count resource_services prq) (check_each o) in
      let (to_room, of_room) = check_count_iff resource_services prq in
      let (to_each, of_each) = check_each_iff o in
      (
        (λ h. (to_room (parts.0 h).0, to_each (parts.0 h).1)),
        (λ h. parts.1 (of_room h.0, of_each h.1)),
      )

module _ {Q B : Type 0} ⦃q : Quantity Q⦄ (reader : Reader Q) (svc : Service B) {prq_name : String}
    {prq : ProjectResourceQuota Q} (annotated : annotated_project svc ≡ some prq_name)
    (got : reader.get prq_name ≡ ok prq) where
  create_checks :
      validate_create reader svc
      ≡ (check_count resource_services prq >> check_each prq (typed_resource svc.body.service_type))
  unfolding validate_create validate_service
  create_checks = rw (annotated, got, check_type-each)

  -- A service that is annotated with a project that can be fetched may be created exactly when
  -- there is room for one more service and, for a node port or a load balancer, for one more of
  -- that type.
  pub service_create_iff :
      (validate_create reader svc ≡ ok tt)
      ↔ (HasRoom resource_services prq × HasRoomFor prq (typed_resource svc.body.service_type))
  service_create_iff = rw create_checks (both_have_room prq (typed_resource svc.body.service_type))

module _ {Q B : Type 0} ⦃q : Quantity Q⦄ (reader : Reader Q) (old_svc new_svc : Service B)
    {prq_name : String} {prq : ProjectResourceQuota Q}
    (annotated : annotated_project new_svc ≡ some prq_name)
    (got : reader.get prq_name ≡ ok prq) where
  update_checks : validate_update reader old_svc new_svc ≡ (
      check_count resource_services prq
      >> check_each prq (
          if old_svc.body.service_type == new_svc.body.service_type
          then none
          else typed_resource new_svc.body.service_type))
  unfolding validate_update validate_service
  update_checks = rw (annotated, got, check_new_type-each)

  -- An annotated service whose project can be fetched may be updated exactly when there is room
  -- for one more service, though the update adds none, and if the update changes the type, for one
  -- more of the new type.
  pub service_update_iff : (validate_update reader old_svc new_svc ≡ ok tt) ↔ (
      HasRoom resource_services prq
      × HasRoomFor prq (
          if old_svc.body.service_type == new_svc.body.service_type
          then none
          else typed_resource new_svc.body.service_type))
  service_update_iff = rw update_checks (
      both_have_room prq (
        if old_svc.body.service_type == new_svc.body.service_type
        then none
        else typed_resource new_svc.body.service_type))
