-- ===== src/Webhook/Pod.antt =====
-- api/v1/pod_webhook.go, and `PodEffectiveRequests` and `PodEffectiveLimits` of api/v1/util.go.
-- The sums over a pod's containers are computed by k8s.io/component-helpers/resource, which is not
-- part of the repository: `PodResources` stands for its two functions, called with no options.
pub mod Table
pub mod Fits
use projectresourcequota.Prelude.{List, [], ◌∷◌}
use projectresourcequota.Dict.{IsMap}
use projectresourcequota.Quantity.{Quantity, is_above}
use projectresourcequota.Api.{Pod, ResourceList, ProjectResourceQuota}
use projectresourcequota.Api.Names.{
  ResourceName, resource_cpu, resource_memory, resource_storage, resource_ephemeral_storage,
  resource_pods, resource_requests_cpu, resource_requests_memory, resource_requests_storage,
  resource_requests_ephemeral_storage, resource_limits_cpu, resource_limits_memory,
  resource_limits_ephemeral_storage,
}
use projectresourcequota.Api.Result.{Result, Verdict, ok, over_quota, ◌>>◌, refuse_if}
use projectresourcequota.Api.Client.{Reader}
use projectresourcequota.Webhook.Annotator.{annotate_first}
use projectresourcequota.Webhook.Counting.{
  at, hard_of, used_of, check_count, against_project, annotated_project,
}

pub record PodResources (Q B : Type 0) : Type 0 where
  -- `resourcehelper.PodRequests(pod, resourcehelper.PodResourcesOptions{})`
  pub pod_requests : Pod B → ResourceList Q
  -- `resourcehelper.PodLimits(pod, resourcehelper.PodResourcesOptions{})`
  pub pod_limits : Pod B → ResourceList Q
  -- Their results are Go maps.
  pub pod_requests-IsMap : (pod : Pod B) → IsMap (pod_requests pod)
  pub pod_limits-IsMap : (pod : Pod B) → IsMap (pod_limits pod)

unfoldable pub default : {Q B : Type 0} → Reader Q → Pod B → Result Q (Pod B)
unfolding annotate_first
default reader pod = annotate_first resource_pods reader pod

module _ {Q B : Type 0} (helper : PodResources Q B) where
  abbrev pub pod_effective_requests : Pod B → ResourceList Q
  pod_effective_requests pod = helper.pod_requests pod

  abbrev pub pod_effective_limits : Pod B → ResourceList Q
  pod_effective_limits pod = helper.pod_limits pod

module _ {Q : Type 0} ⦃q : Quantity Q⦄ where
  -- The closure `checkQuota` over `prq`.
  unfoldable pub check_quota : ProjectResourceQuota Q → ResourceName → Q → Verdict Q
  check_quota prq name request =
      let used = used_of prq name in
      let hard = hard_of prq name in
      let total = q.add (q.deep_copy request) used in
      refuse_if (is_above total hard) (over_quota name request used hard)

  -- The table of the loop: a resource that a project may limit, and the pod's amount of it.
  unfoldable pub checks : ResourceList Q → ResourceList Q → List (ResourceName × Q)
  checks requests limits =
      (resource_cpu, at requests resource_cpu)
      ∷ (resource_memory, at requests resource_memory)
      ∷ (resource_storage, at requests resource_storage)
      ∷ (resource_ephemeral_storage, at requests resource_ephemeral_storage)
      ∷ (resource_requests_cpu, at requests resource_cpu)
      ∷ (resource_requests_memory, at requests resource_memory)
      ∷ (resource_requests_storage, at requests resource_storage)
      ∷ (resource_requests_ephemeral_storage, at requests resource_ephemeral_storage)
      ∷ (resource_limits_cpu, at limits resource_cpu)
      ∷ (resource_limits_memory, at limits resource_memory)
      ∷ (resource_limits_ephemeral_storage, at limits resource_ephemeral_storage)
      ∷ []

  unfoldable pub check_all : ProjectResourceQuota Q → List (ResourceName × Q) → Verdict Q
  check_all prq [] = ok tt
  check_all prq ((name, request) ∷ rest) = check_quota prq name request >> check_all prq rest

module _ {Q B : Type 0} ⦃q : Quantity Q⦄ (helper : PodResources Q B) where
  -- What `ValidateCreate` checks once it has the project.
  unfoldable pub check_pod : Pod B → ProjectResourceQuota Q → Verdict Q
  check_pod pod prq = do
    check_count resource_pods prq
    let requests = pod_effective_requests helper pod
    let limits = pod_effective_limits helper pod
    check_all prq (checks requests limits)

  unfoldable pub validate_create : Reader Q → Pod B → Verdict Q
  unfolding check_pod
  validate_create reader pod = against_project reader (check_pod pod) (annotated_project pod)

module _ {Q B : Type 0} where
  -- Kubernetes does not let the resources of a pod be updated, so nothing is checked.
  abbrev pub validate_update : Reader Q → Pod B → Pod B → Verdict Q
  validate_update reader old_pod new_pod = ok tt

  abbrev pub validate_delete : Reader Q → Pod B → Verdict Q
  validate_delete reader pod = ok tt
