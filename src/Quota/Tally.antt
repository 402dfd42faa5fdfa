-- ===== src/Quota/Tally.antt =====
-- How many objects of a kind count for a project in the cluster, and how one object more or less
-- changes it.
use projectresourcequota.Prelude.{
  ℕ, ◌+◌, ◌*◌, String, ◌≡◌, ◌≢◌, refl, subst, ◌⊎◌, inl, inr, Bool, true, false, List, [], ◌∷◌, ◌++◌,
  contains, All, Bool-cases, if◌then◌else◌, arith,
}
use projectresourcequota.Prelude.Int.{ℤ, pos, ◌≤ℤ◌, int_laws}
use projectresourcequota.Dict.{has}
use projectresourcequota.Quantity.{Quantity, nano}
use projectresourcequota.Api.{Kind, Object, Body, ResourceList}
use projectresourcequota.Api.Result.{ok}
use projectresourcequota.Webhook.Pod.{PodResources}
use projectresourcequota.Controller.Cluster.{Client}
use projectresourcequota.Controller.Cluster.Laws.{kind_cases}
use projectresourcequota.Controller.Usage.Sums.{sum_where, one}
use projectresourcequota.Controller.Usage.Tables.{items_of}
use projectresourcequota.Quota.Sums.{
  AllDistinct, Rises, row_charge-one_more, row_total-Rises, row_total-same,
}
use projectresourcequota.Controller.Usage.Counts.{
  belongs, is_live_pod, gate, Row, count_rows, pod_rows, row_charge, row_total,
}

abbrev pub counts_as : (B : Type 0) (k : Kind) → Object (Body B k) → Bool
counts_as B Kind.config_map obj = belongs obj
counts_as B Kind.persistent_volume_claim obj = belongs obj
counts_as B Kind.pod obj = is_live_pod obj
counts_as B Kind.replication_controller obj = belongs obj
counts_as B Kind.resource_quota obj = belongs obj
counts_as B Kind.secret obj = belongs obj
counts_as B Kind.service obj = belongs obj

-- The row of the number of objects of a kind.
abbrev pub kind_row : {B : Type 0} → Kind → Row B
kind_row {B} k = record { name = gate k; kind = k; counts = counts_as B k; measure = λ obj. one }

pub kind_row-All :
    {Q B : Type 0} ⦃q : Quantity Q⦄ (helper : PodResources Q B) (P : Row B → Type 0)
    → All P (count_rows ++ pod_rows helper)
    → (k : Kind) → P (kind_row k)
kind_row-All helper P h Kind.config_map = h.0
kind_row-All helper P h Kind.persistent_volume_claim = h.1.0
kind_row-All helper P h Kind.replication_controller = h.1.1.0
kind_row-All helper P h Kind.resource_quota = h.1.1.1.0
kind_row-All helper P h Kind.secret = h.1.1.1.1.0
kind_row-All helper P h Kind.service = h.1.1.1.1.1.0
kind_row-All helper P h Kind.pod = h.1.1.1.1.1.1.1.1.0

sum_where-whole :
    {A : Type 0} (counts : A → Bool) (xs : List A)
    → (c : ℕ) × (sum_where counts (λ _. one) xs ≡ pos (c * nano))
sum_where-whole counts [] = (0, refl)
sum_where-whole counts (x ∷ xs) =
    let (c, rest) = sum_where-whole counts xs in
    elim (Bool-cases (counts x)) [
      | inl counted ↦ (c + 1, rw (counted, rest) (omega int_laws))
      | inr skipped ↦ (c, rw (skipped, rest) (omega int_laws))
    ]

module _ {Q B S : Type 0} (client : Client Q B S) where
  -- The cluster `s'` has one object more than `s`, and the same projects.
  pub record IsOneMore (k : Kind) (obj : Object (Body B k)) (s s' : S) : Type 0 where
    pub before : List (Object (Body B k))
    pub after : List (Object (Body B k))
    pub without_it : client.list k obj.meta.namespace s ≡ ok (before ++ after)
    pub with_it : client.list k obj.meta.namespace s' ≡ ok (before ++ obj ∷ after)
    pub elsewhere :
        (other : Kind) (ns : String)
        → (k ≢ other) ⊎ (obj.meta.namespace ≢ ns)
        → client.list other ns s' ≡ client.list other ns s
    pub projects : (name : String) → client.get name s' ≡ client.get name s

  module _ ⦃q : Quantity Q⦄ (helper : PodResources Q B) (hard : ResourceList Q) where
    -- The number of objects of a kind that count for a project, as an amount.
    abbrev pub tally : S → Kind → List String → ℤ
    tally s k nss = row_total helper client hard s (kind_row k) nss

    -- One object more.
    pub tally-Rises :
        (k : Kind) (obj : Object (Body B k)) (s s' : S)
        → IsOneMore k obj s s'
        → (nss : List String) → AllDistinct nss
        → Rises
            (tally s k nss)
            (tally s' k nss)
            (if contains obj.meta.namespace nss then one else pos 0)
    tally-Rises k obj s s' more =
        row_total-Rises helper client hard (kind_row k) s s' obj.meta.namespace one
          (row_charge-one_more helper client hard (kind_row k) s s' obj.meta.namespace more.before
            obj more.after more.without_it more.with_it (omega arith))
          (λ ns away. more.elsewhere k ns (inr away))

    -- One object more of any kind.
    pub tally-more :
        (other : Kind) (obj : Object (Body B other)) (s s' : S)
        → IsOneMore other obj s s'
        → (k : Kind) (nss : List String) → AllDistinct nss
        → tally s k nss ≤ℤ tally s' k nss
    tally-more other obj s s' more k nss distinct = elim (kind_cases other k) [
      | inl same ↦
          subst (λ x. tally s x nss ≤ℤ tally s' x nss) same
            (tally-Rises other obj s s' more nss distinct).0
      | inr differ ↦
          rw
            (row_total-same helper client hard (kind_row k) s s' nss
              (λ ns inside. more.elsewhere k ns (inl differ)))
            (omega arith)
    ]

    abbrev charge : S → Kind → String → ℤ
    charge s k ns = row_charge helper client hard s (kind_row k) ns

    -- A tally is a number of objects.
    charge-whole : (s : S) (k : Kind) (ns : String) → (c : ℕ) × (charge s k ns ≡ pos (c * nano))
    charge-whole s k ns = by_limit (has (gate k) hard)
      where
        by_limit :
            (limited : Bool)
            → (c : ℕ) × ((if limited
                  then (if limited
                      then sum_where (counts_as B k) (λ o. one) (items_of (client.list k ns s))
                      else pos 0)
                  else pos 0)
                ≡ pos (c * nano))
        by_limit true = sum_where-whole (counts_as B k) (items_of (client.list k ns s))
        by_limit false = (0, refl)

    pub tally-whole :
        (s : S) (k : Kind) (nss : List String) → (c : ℕ) × (tally s k nss ≡ pos (c * nano))
    tally-whole s k [] = (0, refl)
    tally-whole s k (ns ∷ rest) =
        let (a, here) = charge-whole s k ns in
        let (b, later) = tally-whole s k rest in (a + b, rw (here, later) (omega int_laws))
