-- ===== src/Webhook/Pod/Fits.antt =====
-- When a pod fits into its project: the checks of the code against a description by amounts,
-- resource by resource.
use projectresourcequota.Prelude.{
  String, ◌≡◌, ◌≢◌, ◌∙◌, ◌↔◌, none, some, List, ◌∷◌, ◌++◌, All-middle, arith,
}
use projectresourcequota.Prelude.Int.{ℤ, pos, ◌+ℤ◌, ◌<ℤ◌, ◌≤ℤ◌, int_laws}
use projectresourcequota.Dict.{lookup}
use projectresourcequota.Quantity.{Quantity}
use projectresourcequota.Api.{Pod, ResourceList, ProjectResourceQuota}
use projectresourcequota.Api.Names.{
  ResourceName, resource_cpu, resource_memory, resource_storage, resource_ephemeral_storage,
  resource_pods, resource_requests_cpu, resource_requests_memory, resource_requests_storage,
  resource_requests_ephemeral_storage, resource_limits_cpu, resource_limits_memory,
  resource_limits_ephemeral_storage,
}
use projectresourcequota.Api.Result.{ok, err, over_quota}
use projectresourcequota.Api.Client.{Reader}
use projectresourcequota.Webhook.Counting.{at, hard_of, used_of, annotated_project}
use projectresourcequota.Webhook.Counting.Limit.{
  HasRoom, hard_amount, used_amount, room_of_ok, check_count_room, hard_amount_unset,
}
use projectresourcequota.Webhook.Pod.{PodResources, checks, check_pod, validate_create}
use projectresourcequota.Webhook.Pod.Table.{
  Within, WithinEach, check_all_within, check_all_first, check_all_sound,
}

over_zero : (a b : ℤ) {c : ℤ} → c ≡ pos 0 → a +ℤ b ≤ℤ c → pos 0 <ℤ a → pos 0 ≤ℤ b → ⊥
over_zero a b e h ha hb = let h' = rw e at h in omega (int_laws, h')

-- A pod with the given requests and limits fits: there is room for one more pod, and no amount
-- passes its limit. A resource that may be limited under two names is held to both limits.
pub record PodFits {Q : Type 0} ⦃q : Quantity Q⦄ (prq : ProjectResourceQuota Q)
    (requests limits : ResourceList Q) : Type 0 where
  pub pods : HasRoom resource_pods prq
  pub cpu : Within prq resource_cpu (at requests resource_cpu)
  pub memory : Within prq resource_memory (at requests resource_memory)
  pub storage : Within prq resource_storage (at requests resource_storage)
  pub ephemeral_storage :
      Within prq resource_ephemeral_storage (at requests resource_ephemeral_storage)
  pub requests_cpu : Within prq resource_requests_cpu (at requests resource_cpu)
  pub requests_memory : Within prq resource_requests_memory (at requests resource_memory)
  pub requests_storage : Within prq resource_requests_storage (at requests resource_storage)
  pub requests_ephemeral_storage :
      Within prq resource_requests_ephemeral_storage (at requests resource_ephemeral_storage)
  pub limits_cpu : Within prq resource_limits_cpu (at limits resource_cpu)
  pub limits_memory : Within prq resource_limits_memory (at limits resource_memory)
  pub limits_ephemeral_storage :
      Within prq resource_limits_ephemeral_storage (at limits resource_ephemeral_storage)

module _ {Q B : Type 0} ⦃q : Quantity Q⦄ (helper : PodResources Q B) (prq : ProjectResourceQuota Q)
    (pod : Pod B) where
  fits_of_checks :
      HasRoom resource_pods prq
      → WithinEach prq (checks (helper.pod_requests pod) (helper.pod_limits pod))
      → PodFits prq (helper.pod_requests pod) (helper.pod_limits pod)
  unfolding checks
  fits_of_checks room h = record {
    pods = room;
    cpu = h.0;
    memory = h.1.0;
    storage = h.1.1.0;
    ephemeral_storage = h.1.1.1.0;
    requests_cpu = h.1.1.1.1.0;
    requests_memory = h.1.1.1.1.1.0;
    requests_storage = h.1.1.1.1.1.1.0;
    requests_ephemeral_storage = h.1.1.1.1.1.1.1.0;
    limits_cpu = h.1.1.1.1.1.1.1.1.0;
    limits_memory = h.1.1.1.1.1.1.1.1.1.0;
    limits_ephemeral_storage = h.1.1.1.1.1.1.1.1.1.1.0;
  }

  checks_of_fits :
      PodFits prq (helper.pod_requests pod) (helper.pod_limits pod)
      → WithinEach prq (checks (helper.pod_requests pod) (helper.pod_limits pod))
  unfolding checks
  checks_of_fits f = (
    f.cpu,
    (
      f.memory,
      (
        f.storage,
        (
          f.ephemeral_storage,
          (
            f.requests_cpu,
            (
              f.requests_memory,
              (
                f.requests_storage,
                (
                  f.requests_ephemeral_storage,
                  (f.limits_cpu, (f.limits_memory, (f.limits_ephemeral_storage, tt))),
                ),
              ),
            ),
          ),
        ),
      ),
    ),
  )

  pub check_pod_iff :
      (check_pod helper pod prq ≡ ok tt)
      ↔ PodFits prq (helper.pod_requests pod) (helper.pod_limits pod)
  unfolding check_pod
  check_pod_iff = (to_fits, from_fits)
    where
      to_fits :
          check_pod helper pod prq ≡ ok tt
          → PodFits prq (helper.pod_requests pod) (helper.pod_limits pod)
      to_fits h =
          let room = room_of_ok resource_pods prq (ground arith) in
          fits_of_checks room
            (check_all_sound prq _ (rw (check_count_room resource_pods prq room) at h))

      from_fits :
          PodFits prq (helper.pod_requests pod) (helper.pod_limits pod)
          → check_pod helper pod prq ≡ ok tt
      from_fits f =
          rw (check_count_room resource_pods prq f.pods) (check_all_within prq _ (checks_of_fits f))

module _ {Q B : Type 0} ⦃q : Quantity Q⦄ (helper : PodResources Q B) (reader : Reader Q)
    (pod : Pod B) {prq_name : String} {prq : ProjectResourceQuota Q}
    (annotated : annotated_project pod ≡ some prq_name) (got : reader.get prq_name ≡ ok prq) where
  validate_create-check : validate_create helper reader pod ≡ check_pod helper pod prq
  unfolding validate_create
  validate_create-check = rw (annotated, got)

  -- A pod that is annotated with a project that can be fetched is accepted exactly when it fits:
  -- the count of pods has room, and for each of the eleven compute resources the pod's request or
  -- limit, added to the usage, is within the project's limit. What a project has no entry for
  -- counts as zero.
  pub validate_create-PodFits :
      (validate_create helper reader pod ≡ ok tt)
      ↔ PodFits prq (helper.pod_requests pod) (helper.pod_limits pod)
  validate_create-PodFits = rw validate_create-check (check_pod_iff helper prq pod)

  -- With room for one more pod, the first entry of the table of checks whose request and usage
  -- pass the limit, all entries before it being within theirs, is the one that is reported, with
  -- the pod's own request, the usage and the limit.
  pub validate_create_first :
      (before : List (ResourceName × Q)) (name : ResourceName) (request : Q)
      (after : List (ResourceName × Q))
      → HasRoom resource_pods prq
      → checks (helper.pod_requests pod) (helper.pod_limits pod) ≡ before ++ (name, request) ∷ after
      → WithinEach prq before
      → hard_amount name prq <ℤ q.amount request +ℤ used_amount name prq
      → validate_create helper reader pod
        ≡ err (over_quota name request (used_of prq name) (hard_of prq name))
  validate_create_first before name request after room table within above =
      validate_create-check ∙ checked
    where
      checked :
          check_pod helper pod prq
          ≡ err (over_quota name request (used_of prq name) (hard_of prq name))
      checked =
          unfold check_pod in
          rw (check_count_room resource_pods prq room, table)
            (check_all_first prq before name request after within above)

  -- A pod that needs a positive amount of a resource that its project does not limit, and of which
  -- no negative amount is used, is not accepted: a limit that is not set acts as a limit of zero.
  pub validate_create_unlimited :
      (before : List (ResourceName × Q)) (name : ResourceName) (request : Q)
      (after : List (ResourceName × Q))
      → checks (helper.pod_requests pod) (helper.pod_limits pod) ≡ before ++ (name, request) ∷ after
      → lookup name prq.spec.hard ≡ none
      → pos 0 <ℤ q.amount request
      → pos 0 ≤ℤ used_amount name prq
      → validate_create helper reader pod ≢ ok tt
  validate_create_unlimited before name request after table unset positive used accepted =
      let fits = validate_create-PodFits.0 accepted in
      let each = rw table at (checks_of_fits helper prq pod fits) in
      let within =
        All-middle (λ check. Within prq check.0 check.1) before (name, request) after each in
      over_zero (q.amount request) (used_amount name prq) (hard_amount_unset name prq unset) within
        positive used
