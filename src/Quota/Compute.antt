-- ===== src/Quota/Compute.antt =====
-- The compute resources that a project may limit, and what a pod adds to each.
use projectresourcequota.Prelude.{String, List, [], ◌∷◌, ◌++◌, All}
use projectresourcequota.Prelude.Int.{ℤ, pos, ◌+ℤ◌, ◌≤ℤ◌}
use projectresourcequota.Quantity.{Quantity}
use projectresourcequota.Api.{Kind, Pod, ProjectResourceQuota}
use projectresourcequota.Api.Names.{ResourceName}
use projectresourcequota.Webhook.Counting.Limit.{hard_amount, used_amount}
use projectresourcequota.Webhook.Pod.{PodResources}
use projectresourcequota.Webhook.Pod.Fits.{PodFits}
use projectresourcequota.Controller.Cluster.{Client}
use projectresourcequota.Controller.Usage.Sums.{sum_where, total_over}
use projectresourcequota.Controller.Usage.Tables.{items_of}
use projectresourcequota.Controller.Usage.Counts.{
  is_live_pod, Row, count_rows, pod_rows, requested, limited_to,
}

-- A compute resource that a project may limit, and what a pod adds to it.
pub record Compute (B : Type 0) : Type 0 where
  pub name : ResourceName
  pub measure : Pod B → ℤ

abbrev pub row_of : {B : Type 0} → Compute B → Row B
row_of c = record { name = c.name; kind = Kind.pod; counts = is_live_pod; measure = c.measure }

module _ {Q B : Type 0} ⦃q : Quantity Q⦄ (helper : PodResources Q B) where
  abbrev pub compute : List (Compute B)
  compute =
      record { name = "cpu"; measure = requested helper "cpu" }
      ∷ record { name = "requests.cpu"; measure = requested helper "cpu" }
      ∷ record { name = "memory"; measure = requested helper "memory" }
      ∷ record { name = "requests.memory"; measure = requested helper "memory" }
      ∷ record { name = "storage"; measure = requested helper "storage" }
      ∷ record { name = "requests.storage"; measure = requested helper "storage" }
      ∷ record { name = "ephemeral-storage"; measure = requested helper "ephemeral-storage" }
      ∷ record {
        name = "requests.ephemeral-storage";
        measure = requested helper "ephemeral-storage";
      }
      ∷ record { name = "limits.cpu"; measure = limited_to helper "cpu" }
      ∷ record { name = "limits.memory"; measure = limited_to helper "memory" }
      ∷ record {
        name = "limits.ephemeral-storage";
        measure = limited_to helper "ephemeral-storage";
      }
      ∷ []

  -- No pod requests, or is limited to, a negative amount.
  pub record IsPositive : Type 0 where
    pub requests : (m : ResourceName) (pod : Pod B) → pos 0 ≤ℤ requested helper m pod
    pub limits : (m : ResourceName) (pod : Pod B) → pos 0 ≤ℤ limited_to helper m pod

  -- What the controller counts of it is one of its rows, and the validator holds a pod to it.
  pub record IsCompute (c : Compute B) : Type 1 where
    pub counted : (P : Row B → Type 0) → All P (count_rows ++ pod_rows helper) → P (row_of c)
    pub fits :
        (prq : ProjectResourceQuota Q) (pod : Pod B)
        → PodFits prq (helper.pod_requests pod) (helper.pod_limits pod)
        → c.measure pod +ℤ used_amount c.name prq ≤ℤ hard_amount c.name prq
    pub positive : (pod : Pod B) → pos 0 ≤ℤ c.measure pod

  pub compute-IsCompute : IsPositive → All IsCompute compute
  compute-IsCompute p = (
    record {
      counted = λ P h. h.1.1.1.1.1.1.1.1.1.0;
      fits = λ prq pod f. f.cpu;
      positive = p.requests "cpu";
    },
    (
      record {
        counted = λ P h. h.1.1.1.1.1.1.1.1.1.1.0;
        fits = λ prq pod f. f.requests_cpu;
        positive = p.requests "cpu";
      },
      (
        record {
          counted = λ P h. h.1.1.1.1.1.1.1.1.1.1.1.0;
          fits = λ prq pod f. f.memory;
          positive = p.requests "memory";
        },
        (
          record {
            counted = λ P h. h.1.1.1.1.1.1.1.1.1.1.1.1.0;
            fits = λ prq pod f. f.requests_memory;
            positive = p.requests "memory";
          },
          (
            record {
              counted = λ P h. h.1.1.1.1.1.1.1.1.1.1.1.1.1.0;
              fits = λ prq pod f. f.storage;
              positive = p.requests "storage";
            },
            (
              record {
                counted = λ P h. h.1.1.1.1.1.1.1.1.1.1.1.1.1.1.0;
                fits = λ prq pod f. f.requests_storage;
                positive = p.requests "storage";
              },
              (
                record {
                  counted = λ P h. h.1.1.1.1.1.1.1.1.1.1.1.1.1.1.1.0;
                  fits = λ prq pod f. f.ephemeral_storage;
                  positive = p.requests "ephemeral-storage";
                },
                (
                  record {
                    counted = λ P h. h.1.1.1.1.1.1.1.1.1.1.1.1.1.1.1.1.0;
                    fits = λ prq pod f. f.requests_ephemeral_storage;
                    positive = p.requests "ephemeral-storage";
                  },
                  (
                    record {
                      counted = λ P h. h.1.1.1.1.1.1.1.1.1.1.1.1.1.1.1.1.1.0;
                      fits = λ prq pod f. f.limits_cpu;
                      positive = p.limits "cpu";
                    },
                    (
                      record {
                        counted = λ P h. h.1.1.1.1.1.1.1.1.1.1.1.1.1.1.1.1.1.1.0;
                        fits = λ prq pod f. f.limits_memory;
                        positive = p.limits "memory";
                      },
                      (
                        record {
                          counted = λ P h. h.1.1.1.1.1.1.1.1.1.1.1.1.1.1.1.1.1.1.1.0;
                          fits = λ prq pod f. f.limits_ephemeral_storage;
                          positive = p.limits "ephemeral-storage";
                        },
                        tt,
                      ),
                    ),
                  ),
                ),
              ),
            ),
          ),
        ),
      ),
    ),
  )

-- What the live pods in a namespace ask for of a compute resource.
abbrev pub asked_in : {Q B S : Type 0} → Client Q B S → Compute B → S → String → ℤ
asked_in client c s namespace =
    sum_where is_live_pod c.measure (items_of (client.list Kind.pod namespace s))

module _ {Q B S : Type 0} ⦃q : Quantity Q⦄ (client : Client Q B S) (prq : ProjectResourceQuota Q)
    (s : S) where
  -- What the live pods of a project ask for of a compute resource, whether it is limited or not.
  abbrev pub sum_of : Compute B → ℤ
  sum_of c = total_over (asked_in client c s) prq.spec.namespaces

  -- The status records at least what the pods ask for, and that is within the limit.
  abbrev pub IsRecordedWithin : Compute B → Type 0
  IsRecordedWithin c = (sum_of c ≤ℤ used_amount c.name prq) × (sum_of c ≤ℤ hard_amount c.name prq)
