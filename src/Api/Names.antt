-- ===== src/Api/Names.antt =====
-- The names that the program compares: its own constants (api/v1/common.go), and those of
-- `k8s.io/api/core/v1`, whose spelling is the API's (README.md lists the resource names).
use projectresourcequota.Prelude.{String}

abbrev pub ResourceName : Type 0
ResourceName = String

abbrev pub project_resource_quota_finalizer : String
project_resource_quota_finalizer = "jenting.io/finalizer"

abbrev pub project_resource_quota_annotation : String
project_resource_quota_annotation = "project-resource-quota"

abbrev pub resource_cpu : ResourceName
resource_cpu = "cpu"

abbrev pub resource_memory : ResourceName
resource_memory = "memory"

abbrev pub resource_storage : ResourceName
resource_storage = "storage"

abbrev pub resource_ephemeral_storage : ResourceName
resource_ephemeral_storage = "ephemeral-storage"

abbrev pub resource_pods : ResourceName
resource_pods = "pods"

abbrev pub resource_services : ResourceName
resource_services = "services"

abbrev pub resource_replication_controllers : ResourceName
resource_replication_controllers = "replicationcontrollers"

abbrev pub resource_quotas : ResourceName
resource_quotas = "resourcequotas"

abbrev pub resource_secrets : ResourceName
resource_secrets = "secrets"

abbrev pub resource_config_maps : ResourceName
resource_config_maps = "configmaps"

abbrev pub resource_persistent_volume_claims : ResourceName
resource_persistent_volume_claims = "persistentvolumeclaims"

abbrev pub resource_services_node_ports : ResourceName
resource_services_node_ports = "services.nodeports"

abbrev pub resource_services_load_balancers : ResourceName
resource_services_load_balancers = "services.loadbalancers"

abbrev pub resource_requests_cpu : ResourceName
resource_requests_cpu = "requests.cpu"

abbrev pub resource_requests_memory : ResourceName
resource_requests_memory = "requests.memory"

abbrev pub resource_requests_storage : ResourceName
resource_requests_storage = "requests.storage"

abbrev pub resource_requests_ephemeral_storage : ResourceName
resource_requests_ephemeral_storage = "requests.ephemeral-storage"

abbrev pub resource_limits_cpu : ResourceName
resource_limits_cpu = "limits.cpu"

abbrev pub resource_limits_memory : ResourceName
resource_limits_memory = "limits.memory"

abbrev pub resource_limits_ephemeral_storage : ResourceName
resource_limits_ephemeral_storage = "limits.ephemeral-storage"

abbrev pub pod_failed : String
pod_failed = "Failed"

abbrev pub pod_succeeded : String
pod_succeeded = "Succeeded"

abbrev pub service_type_node_port : String
service_type_node_port = "NodePort"

abbrev pub service_type_load_balancer : String
service_type_load_balancer = "LoadBalancer"
