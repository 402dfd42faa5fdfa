-- ===== src/Webhook/Pod/Table.antt =====
-- The loop over the table of checks of a pod, by amounts.
use projectresourcequota.Prelude.{
  ◌≡◌, refl, List, [], ◌∷◌, ◌++◌, All, arith, Bool-cases, inl, inr, if◌then◌else◌,
}
use projectresourcequota.Prelude.Int.{◌+ℤ◌, ◌<ℤ◌, ◌≤ℤ◌, ltb_ℤ, lt→ltb_ℤ, ltb_ℤ→le, le→ltb_ℤ}
use projectresourcequota.Quantity.{Quantity, is_above_lem}
use projectresourcequota.Api.{ProjectResourceQuota}
use projectresourcequota.Api.Names.{ResourceName}
use projectresourcequota.Api.Result.{ok, err, over_quota}
use projectresourcequota.Webhook.Counting.{hard_of, used_of}
use projectresourcequota.Webhook.Counting.Limit.{hard_amount, used_amount}
use projectresourcequota.Webhook.Pod.{check_quota, check_all}

module _ {Q : Type 0} ⦃q : Quantity Q⦄ (prq : ProjectResourceQuota Q) where
  -- The amount asked for, with what is used, is within the limit.
  abbrev pub Within : ResourceName → Q → Type 0
  Within name request = q.amount request +ℤ used_amount name prq ≤ℤ hard_amount name prq

  abbrev pub WithinEach : List (ResourceName × Q) → Type 0
  WithinEach = All (λ check. Within check.0 check.1)

  pub check_quota_lem :
      (name : ResourceName) (request : Q)
      → check_quota prq name request ≡ (
          if ltb_ℤ (hard_amount name prq) (q.amount request +ℤ used_amount name prq)
          then err (over_quota name request (used_of prq name) (hard_of prq name))
          else ok tt)
  unfolding check_quota
  check_quota_lem name request = rw (is_above_lem, q.amount-add, q.deep_copy_lem) (ground arith)

  check_quota-Within :
      (name : ResourceName) (request : Q)
      → Within name request
      → check_quota prq name request ≡ ok tt
  check_quota-Within name request h = rw (check_quota_lem, le→ltb_ℤ _ _ h)

  check_quota_above :
      (name : ResourceName) (request : Q)
      → hard_amount name prq <ℤ q.amount request +ℤ used_amount name prq
      → check_quota prq name request
        ≡ err (over_quota name request (used_of prq name) (hard_of prq name))
  check_quota_above name request h = rw (check_quota_lem, lt→ltb_ℤ _ _ h)

  pub check_all_within :
      (table : List (ResourceName × Q)) → WithinEach table → check_all prq table ≡ ok tt
  unfolding check_all
  check_all_within [] h = refl
  check_all_within ((name, request) ∷ rest) h =
      rw (check_quota-Within name request h.0) (check_all_within rest h.1)

  -- The loop stops at the first check that fails, with that check's error.
  pub check_all_first :
      (before : List (ResourceName × Q)) (name : ResourceName) (request : Q)
      (after : List (ResourceName × Q))
      → WithinEach before
      → hard_amount name prq <ℤ q.amount request +ℤ used_amount name prq
      → check_all prq (before ++ (name, request) ∷ after)
        ≡ err (over_quota name request (used_of prq name) (hard_of prq name))
  unfolding check_all
  check_all_first [] name request after h above = rw (check_quota_above name request above)
  check_all_first ((n, r) ∷ rest) name request after h above =
      rw (check_quota-Within n r h.0) (check_all_first rest name request after h.1 above)

  pub check_all_sound :
      (table : List (ResourceName × Q)) → check_all prq table ≡ ok tt → WithinEach table
  unfolding check_all
  check_all_sound [] h = tt
  check_all_sound ((name, request) ∷ rest) h =
      elim (Bool-cases (ltb_ℤ (hard_amount name prq) (q.amount request +ℤ used_amount name prq))) [
        | inl above ↦ absurd (ground (arith, check_quota_lem name request))
        | inr within ↦
            let fits : Within name request =
              ltb_ℤ→le (hard_amount name prq) (q.amount request +ℤ used_amount name prq) within in
            (fits, check_all_sound rest (rw (check_quota-Within name request fits) at h))
      ]
