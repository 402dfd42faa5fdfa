-- ===== src/Quota/Asked.antt =====
-- How what pods ask for changes when a pod comes, and what the usage records of it.
use projectresourcequota.Prelude.{
  String, ◌≡◌, ◌≢◌, refl, true, false, contains, List, [], ◌∷◌, ◌++◌, if◌then◌else◌,
}
use projectresourcequota.Prelude.Int.{pos, ◌≤ℤ◌, zero-+ℤ}
use projectresourcequota.Dict.{has}
use projectresourcequota.Quantity.{Quantity}
use projectresourcequota.Api.{Kind, Pod, ResourceList}
use projectresourcequota.Api.Result.{ok}
use projectresourcequota.Webhook.Pod.{PodResources}
use projectresourcequota.Controller.Cluster.{Client}
use projectresourcequota.Controller.Usage.Sums.{total_over}
use projectresourcequota.Controller.Usage.Counts.{row_total, is_live_pod}
use projectresourcequota.Quota.Sums.{
  AllDistinct, Rises, sum_where-middle, total_over-Rises, total_over-same,
}
use projectresourcequota.Quota.Compute.{Compute, row_of, asked_in}

module _ {Q B S : Type 0} (client : Client Q B S) (c : Compute B) where
  pub asked_in-Rises :
      (s s' : S) (pre : List (Pod B)) (pod : Pod B) (post : List (Pod B)) (changed : String)
      → client.list Kind.pod changed s ≡ ok (pre ++ post)
      → client.list Kind.pod changed s' ≡ ok (pre ++ pod ∷ post)
      → pos 0 ≤ℤ c.measure pod
      → ((ns : String) → changed ≢ ns → client.list Kind.pod ns s' ≡ client.list Kind.pod ns s)
      → (nss : List String) → AllDistinct nss
      → Rises
          (total_over (asked_in client c s) nss)
          (total_over (asked_in client c s') nss)
          (if contains changed nss then c.measure pod else pos 0)
  asked_in-Rises s s' pre pod post changed without_it with_it positive same =
      total_over-Rises (asked_in client c s) (asked_in client c s') changed (c.measure pod)
        (rw (without_it, with_it) (sum_where-middle is_live_pod c.measure pre pod post positive))
        (λ ns away. rw (same ns away) refl)

  pub asked_in-same :
      (s s' : S) (nss : List String)
      → ((ns : String)
          → contains ns nss ≡ true
          → client.list Kind.pod ns s' ≡ client.list Kind.pod ns s)
      → total_over (asked_in client c s') nss ≡ total_over (asked_in client c s) nss
  asked_in-same s s' nss same =
      total_over-same (asked_in client c s) (asked_in client c s') nss
        (λ ns inside. rw (same ns inside) refl)

module _ {Q B S : Type 0} ⦃q : Quantity Q⦄ (helper : PodResources Q B) (client : Client Q B S)
    (c : Compute B) (hard : ResourceList Q) (s : S) where
  -- A limited resource is counted if the pods are, and another is not.
  pub row_total-limited :
      has "pods" hard ≡ true
      → has c.name hard ≡ true
      → (nss : List String)
      → row_total helper client hard s (row_of c) nss ≡ total_over (asked_in client c s) nss
  row_total-limited pods limited [] = refl
  row_total-limited pods limited (ns ∷ rest) =
      rw (pods, limited, row_total-limited pods limited rest) refl

  pub row_total-unlimited :
      has "pods" hard ≡ true
      → has c.name hard ≡ false
      → (nss : List String) → row_total helper client hard s (row_of c) nss ≡ pos 0
  row_total-unlimited pods free [] = refl
  row_total-unlimited pods free (ns ∷ rest) =
      rw (pods, free, row_total-unlimited pods free rest) (zero-+ℤ (pos 0))
