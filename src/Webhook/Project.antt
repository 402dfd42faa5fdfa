-- ===== src/Webhook/Project.antt =====
-- api/v1/projectresourcequota_webhook.go: the annotator and the validator of the custom resource.
pub mod Namespaces
pub mod Names
pub mod Registry
use projectresourcequota.Prelude.{
  String, List, [], ◌∷◌, not, Option, none, some, ◌==◌, contains, if◌then◌else◌,
}
use projectresourcequota.Dict.{Dict, has}
use projectresourcequota.Quantity.{Quantity, is_below}
use projectresourcequota.Api.{ProjectResourceQuota, ResourceList, is_deleting}
use projectresourcequota.Api.Names.{
  ResourceName, project_resource_quota_finalizer, resource_cpu, resource_memory, resource_storage,
  resource_ephemeral_storage, resource_pods, resource_services, resource_replication_controllers,
  resource_quotas, resource_secrets, resource_config_maps, resource_persistent_volume_claims,
  resource_services_node_ports, resource_services_load_balancers, resource_requests_cpu,
  resource_requests_memory, resource_requests_storage, resource_requests_ephemeral_storage,
  resource_limits_cpu, resource_limits_memory, resource_limits_ephemeral_storage,
}
use projectresourcequota.Api.Result.{
  Result, Verdict, ok, err, namespace_taken, unsupported_name, hard_below_used, ◌>>=◌, ◌>>◌,
  refuse_if,
}
use projectresourcequota.Api.Client.{Reader}
use projectresourcequota.Util.{project_accessor, add_finalizer}
use projectresourcequota.Webhook.Counting.{hard_of, used_of}

-- The table that fixes the order of the checks in `ValidateUpdate`.
unfoldable pub resource_name_list : List ResourceName
resource_name_list =
    resource_cpu ∷ resource_memory ∷ resource_storage ∷ resource_ephemeral_storage ∷ resource_pods
    ∷ resource_services ∷ resource_replication_controllers ∷ resource_quotas ∷ resource_secrets
    ∷ resource_config_maps ∷ resource_persistent_volume_claims ∷ resource_services_node_ports
    ∷ resource_services_load_balancers ∷ resource_requests_cpu ∷ resource_requests_memory
    ∷ resource_requests_storage ∷ resource_requests_ephemeral_storage ∷ resource_limits_cpu
    ∷ resource_limits_memory ∷ resource_limits_ephemeral_storage ∷ []

-- The set of the names that are supported.
unfoldable pub resource_name_map : Dict (Unit {0})
resource_name_map =
    (resource_cpu, tt)
    ∷ (resource_memory, tt)
    ∷ (resource_storage, tt)
    ∷ (resource_ephemeral_storage, tt)
    ∷ (resource_pods, tt)
    ∷ (resource_services, tt)
    ∷ (resource_replication_controllers, tt)
    ∷ (resource_quotas, tt)
    ∷ (resource_secrets, tt)
    ∷ (resource_config_maps, tt)
    ∷ (resource_persistent_volume_claims, tt)
    ∷ (resource_services_node_ports, tt)
    ∷ (resource_services_load_balancers, tt)
    ∷ (resource_requests_cpu, tt)
    ∷ (resource_requests_memory, tt)
    ∷ (resource_requests_storage, tt)
    ∷ (resource_requests_ephemeral_storage, tt)
    ∷ (resource_limits_cpu, tt)
    ∷ (resource_limits_memory, tt)
    ∷ (resource_limits_ephemeral_storage, tt)
    ∷ []

module _ {Q : Type 0} where
  unfoldable pub default : ProjectResourceQuota Q → Result Q (ProjectResourceQuota Q)
  unfolding add_finalizer
  default prq =
      if is_deleting prq then ok prq else add_finalizer project_resource_quota_finalizer prq

  -- The innermost loop of `validateNamespace`, at one namespace of another project.
  unfoldable pub check_namespace : String → String → List String → Verdict Q
  check_namespace other namespace [] = ok tt
  check_namespace other namespace (prq_namespace ∷ rest) =
      if namespace == prq_namespace
      then err (namespace_taken prq_namespace other)
      else check_namespace other namespace rest

  -- The loop over the namespaces of another project.
  unfoldable pub check_namespaces : String → List String → List String → Verdict Q
  check_namespaces other [] prq_namespaces = ok tt
  check_namespaces other (namespace ∷ rest) prq_namespaces =
      check_namespace other namespace prq_namespaces >> check_namespaces other rest prq_namespaces

  -- The loop over `prqList.Items`.
  unfoldable pub check_projects : String → List String → List (ProjectResourceQuota Q) → Verdict Q
  check_projects prq_name prq_namespaces [] = ok tt
  check_projects prq_name prq_namespaces (prq ∷ rest) = do
    if not (prq_name == prq.meta.name)
        then check_namespaces prq.meta.name prq.spec.namespaces prq_namespaces
        else ok tt
    check_projects prq_name prq_namespaces rest

  unfoldable pub validate_namespace : Reader Q → String → List String → Verdict Q
  unfolding check_projects check_namespaces check_namespace
  validate_namespace reader prq_name prq_namespaces =
      reader.list >>= check_projects prq_name prq_namespaces

  unfoldable pub validate_resource_name : ResourceList Q → Verdict Q
  unfolding resource_name_map
  validate_resource_name [] = ok tt
  validate_resource_name ((resource_name, quantity) ∷ rest) =
      refuse_if (not (has resource_name resource_name_map)) (unsupported_name resource_name)
      >> validate_resource_name rest

  unfoldable pub validate_create : Reader Q → ProjectResourceQuota Q → Verdict Q
  validate_create reader prq = do
    validate_namespace reader prq.meta.name prq.spec.namespaces
    validate_resource_name prq.spec.hard

module _ {Q : Type 0} ⦃q : Quantity Q⦄ where
  -- The loop over `resourceNameList`: a limit must not be below the usage.
  unfoldable pub check_hard : ProjectResourceQuota Q → List ResourceName → Verdict Q
  check_hard prq [] = ok tt
  check_hard prq (name ∷ rest) =
      refuse_if (is_below (hard_of prq name) (used_of prq name))
        (hard_below_used (hard_of prq name) (used_of prq name))
      >> check_hard prq rest

  unfoldable pub validate_update :
      Reader Q → ProjectResourceQuota Q → ProjectResourceQuota Q → Verdict Q
  unfolding resource_name_list
  validate_update reader old_prq new_prq = do
    validate_namespace reader new_prq.meta.name new_prq.spec.namespaces
    validate_resource_name new_prq.spec.hard
    check_hard new_prq resource_name_list

module _ {Q : Type 0} where
  abbrev pub validate_delete : Reader Q → ProjectResourceQuota Q → Verdict Q
  validate_delete reader obj = ok tt
