-- ===== src/Webhook/Counting/Limit.antt =====
-- When the count of a resource leaves room under its limit.
use projectresourcequota.Prelude.{
  none, ap, ℕ, ◌+◌, ◌*◌, ◌≤◌, ◌≡◌, refl, ◌∙◌, ◌↔◌, Bool, true, false, not, arith, if◌then◌else◌,
}
use projectresourcequota.Prelude.Int.{ℤ, pos, ◌<ℤ◌, ltb_ℤ, lt→ltb_ℤ}
use projectresourcequota.Dict.{lookup}
use projectresourcequota.Quantity.{Quantity, nano, is_above_lem}
use projectresourcequota.Api.{ProjectResourceQuota}
use projectresourcequota.Api.Names.{ResourceName}
use projectresourcequota.Api.Result.{Error, ok, err, over_count, refuse_if}
use projectresourcequota.Webhook.Counting.{at, or_zero, hard_of, used_of, check_count}

module _ {Q : Type 0} ⦃q : Quantity Q⦄ (name : ResourceName) (prq : ProjectResourceQuota Q) where
  abbrev pub hard_amount : ℤ
  hard_amount = q.amount (hard_of prq name)

  abbrev pub used_amount : ℤ
  used_amount = q.amount (used_of prq name)

  -- There is room for one more: the usage is below the limit.
  abbrev pub HasRoom : Type 0
  HasRoom = used_amount <ℤ hard_amount

-- A limit that is not set counts as zero.
pub hard_amount_unset :
    {Q : Type 0} ⦃q : Quantity Q⦄ (name : ResourceName) (prq : ProjectResourceQuota Q)
    → lookup name prq.spec.hard ≡ none
    → hard_amount name prq ≡ pos 0
unfolding at
hard_amount_unset ⦃q⦄ name prq unset = ap (λ o. q.amount (or_zero o)) unset ∙ q.amount-zero_value

whole : (k n : ℕ) {x y : ℤ} → x ≡ pos (k * nano) → y ≡ pos (n * nano) → (x <ℤ y) ↔ (k + 1 ≤ n)
whole k n hx hy = rw (hx, hy) ((λ h. omega arith), (λ h. omega arith))

refuse_if-not :
    {Q : Type 0} (b : Bool) (e : Error Q) → refuse_if (not b) e ≡ (if b then ok tt else err e)
refuse_if-not true e = refl
refuse_if-not false e = refl

module _ {Q : Type 0} ⦃q : Quantity Q⦄ (name : ResourceName) (prq : ProjectResourceQuota Q) where
  -- The check of a count, by the amounts.
  pub check_count_lem : check_count name prq ≡ (
      if ltb_ℤ (used_amount name prq) (hard_amount name prq)
      then ok tt
      else err (over_count name (used_of prq name) (hard_of prq name)))
  unfolding check_count
  check_count_lem = rw is_above_lem (
      refuse_if-not (ltb_ℤ (used_amount name prq) (hard_amount name prq))
        (over_count name (used_of prq name) (hard_of prq name)))

  pub check_count_room : HasRoom name prq → check_count name prq ≡ ok tt
  check_count_room room = rw (check_count_lem, lt→ltb_ℤ _ _ room)

  pub room_of_ok : check_count name prq ≡ ok tt → HasRoom name prq
  room_of_ok h = ground (arith, check_count_lem)

  pub check_count_iff : (check_count name prq ≡ ok tt) ↔ HasRoom name prq
  check_count_iff = (room_of_ok, check_count_room)

  -- Below the limit, for whole numbers, means that one more is within it.
  pub HasRoom_whole :
      (k n : ℕ)
      → used_amount name prq ≡ q.amount (q.of_count k)
      → hard_amount name prq ≡ q.amount (q.of_count n)
      → HasRoom name prq ↔ (k + 1 ≤ n)
  HasRoom_whole k n used hard = whole k n (used ∙ q.amount-of_count k) (hard ∙ q.amount-of_count n)
