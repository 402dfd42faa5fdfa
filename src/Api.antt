-- ===== src/Api.antt =====
-- The objects of the Kubernetes API that the program handles, and its own custom resource
-- (api/v1/projectresourcequota_types.go, api/v1/common.go).
-- An API object is its metadata and a body. Of a body the program reads a pod's phase and a
-- service's type; the rest is of a type `B` of which nothing is assumed.
pub mod Names
pub mod Result
pub mod Client
use projectresourcequota.Prelude.{ℕ, String, Bool, Option, List}
use projectresourcequota.Dict.{Dict, is_found}

-- The fields of `metav1.ObjectMeta` that the program reads or writes.
pub record ObjectMeta : Type 0 where
  pub name : String
  pub namespace : String
  pub annotations : Option (Dict String)
  pub finalizers : List String
  pub deletion_timestamp : Option ℕ

-- A struct with an embedded `ObjectMeta`.
pub record Object (B : Type 0) : Type 0 where
  pub meta : ObjectMeta
  pub body : B

pub record PodBody (B : Type 0) : Type 0 where
  pub phase : String
  pub rest : B

pub record ServiceBody (B : Type 0) : Type 0 where
  pub service_type : String
  pub rest : B

-- The kinds of objects that a project counts, in the order in which the controller visits them.
pub data Kind : Type 0 where
  config_map persistent_volume_claim pod replication_controller resource_quota secret service : Kind

abbrev pub Body : Type 0 → Kind → Type 0
Body B Kind.pod = PodBody B
Body B Kind.service = ServiceBody B
Body B _ = B

abbrev pub Pod : Type 0 → Type 0
Pod B = Object (PodBody B)

abbrev pub Service : Type 0 → Type 0
Service B = Object (ServiceBody B)

-- `corev1.ResourceList`
abbrev pub ResourceList : Type 0 → Type 0
ResourceList Q = Dict Q

pub record ProjectResourceQuotaSpec (Q : Type 0) : Type 0 where
  pub namespaces : List String
  pub hard : ResourceList Q

pub record ProjectResourceQuotaStatus (Q : Type 0) : Type 0 where
  pub used : Option (ResourceList Q)
  pub namespaces : List String

pub record ProjectResourceQuota (Q : Type 0) : Type 0 where
  pub meta : ObjectMeta
  pub spec : ProjectResourceQuotaSpec Q
  pub status : ProjectResourceQuotaStatus Q

-- `prq.DeletionTimestamp != nil`
abbrev pub is_deleting : {Q : Type 0} → ProjectResourceQuota Q → Bool
is_deleting prq = is_found prq.meta.deletion_timestamp
