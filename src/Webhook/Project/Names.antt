-- ===== src/Webhook/Project/Names.antt =====
-- The resource names and limits that the validator of the custom resource accepts.
use projectresourcequota.Prelude.{
  ◌≡◌, refl, sym, ◌∙◌, ◌↔◌, Bool, true, false, not, List, [], ◌∷◌, contains, All, arith,
}
use projectresourcequota.Prelude.Int.{◌≤ℤ◌, ltb_ℤ→le, le→ltb_ℤ}
use projectresourcequota.Dict.{has, keys}
use projectresourcequota.Dict.Laws.{contains-keys}
use projectresourcequota.Quantity.{Quantity, is_below, is_below_lem}
use projectresourcequota.Api.{ProjectResourceQuota, ResourceList}
use projectresourcequota.Api.Names.{ResourceName}
use projectresourcequota.Api.Result.{Error, Verdict, ok, err, ◌>>◌, refuse_if}
use projectresourcequota.Api.Client.{Reader}
use projectresourcequota.Webhook.Counting.{hard_of, used_of}
use projectresourcequota.Webhook.Counting.Limit.{hard_amount, used_amount}
use projectresourcequota.Webhook.Project.{
  resource_name_list, resource_name_map, validate_resource_name, check_hard, validate_create,
  validate_update,
}
use projectresourcequota.Webhook.Project.Namespaces.{IsNoConflict, validate_namespace_iff}

keys-resource_name_map : keys resource_name_map ≡ resource_name_list
unfolding resource_name_map resource_name_list
keys-resource_name_map = refl

-- The set and the list of the supported names hold the same names: what the check of the names
-- accepts is what the check of the limits visits.
pub resource_name_tables :
    (name : ResourceName) → has name resource_name_map ≡ contains name resource_name_list
resource_name_tables name =
    rw (← keys-resource_name_map) (sym (contains-keys name resource_name_map))

abbrev pub IsSupported : ResourceName → Type 0
IsSupported name = contains name resource_name_list ≡ true

not-false : (b : Bool) → not b ≡ false → b ≡ true
not-false b h = ground arith

module _ {Q : Type 0} where
  refuse_if_ok : (b : Bool) (e : Error Q) → b ≡ false → refuse_if b e ≡ ok tt
  refuse_if_ok b e h = rw h

  ok_of_refuse_if :
      (b : Bool) (e : Error Q) (k : Verdict Q)
      → (refuse_if b e >> k) ≡ ok tt
      → (b ≡ false) × (k ≡ ok tt)
  ok_of_refuse_if true e k h = absurd (cc)
  ok_of_refuse_if false e k h = (refl, h)

  IsSupported-of_ok :
      (rl : ResourceList Q) → validate_resource_name rl ≡ ok tt → All IsSupported (keys rl)
  unfolding validate_resource_name
  IsSupported-of_ok [] h = tt
  IsSupported-of_ok ((name, _) ∷ rest) h =
      let (found, more) = ok_of_refuse_if (not (has name resource_name_map)) _ _ h in
      (sym (resource_name_tables name) ∙ not-false _ found, IsSupported-of_ok rest more)

  ok_of_supported :
      (rl : ResourceList Q) → All IsSupported (keys rl) → validate_resource_name rl ≡ ok tt
  unfolding validate_resource_name
  ok_of_supported [] h = refl
  ok_of_supported ((name, _) ∷ rest) h =
      rw (resource_name_tables name ∙ h.0) (ok_of_supported rest h.1)

  -- A list of limits is accepted exactly when each of its names, in whatever order a `range` over
  -- the map visits them, is one of the twenty supported names.
  pub validate_resource_name_iff :
      (rl : ResourceList Q) → (validate_resource_name rl ≡ ok tt) ↔ All IsSupported (keys rl)
  validate_resource_name_iff rl = (IsSupported-of_ok rl, ok_of_supported rl)

module _ {Q : Type 0} ⦃q : Quantity Q⦄ (prq : ProjectResourceQuota Q) where
  -- The usage of a resource is within the limit.
  abbrev pub IsWithin : ResourceName → Type 0
  IsWithin name = used_amount name prq ≤ℤ hard_amount name prq

  IsWithin-of_ok : (names : List ResourceName) → check_hard prq names ≡ ok tt → All IsWithin names
  unfolding check_hard
  IsWithin-of_ok [] h = tt
  IsWithin-of_ok (name ∷ rest) h =
      let (below, more) = ok_of_refuse_if (is_below (hard_of prq name) (used_of prq name)) _ _ h in
      (
        ltb_ℤ→le (hard_amount name prq) (used_amount name prq)
            (sym (is_below_lem (hard_of prq name) (used_of prq name)) ∙ below),
        IsWithin-of_ok rest more,
      )

  ok_of_within : (names : List ResourceName) → All IsWithin names → check_hard prq names ≡ ok tt
  unfolding check_hard
  ok_of_within [] h = refl
  ok_of_within (name ∷ rest) h =
      rw
        (is_below_lem (hard_of prq name) (used_of prq name)
          ∙ le→ltb_ℤ (hard_amount name prq) (used_amount name prq) h.0)
        (ok_of_within rest h.1)

-- Two checks in a row accept exactly when both do.
then_iff :
    {Q : Type 0} {A B : Type 0} {m k : Verdict Q}
    → (m ≡ ok tt) ↔ A
    → (k ≡ ok tt) ↔ B
    → ((m >> k) ≡ ok tt) ↔ (A × B)
then_iff {m} {k} f g =
    ((λ h. let (hm, hk) = both m h in (f.0 hm, g.0 hk)), (λ h. rw (f.1 h.0) (g.1 h.1)))
  where
    both : (m : Verdict _) → (m >> k) ≡ ok tt → (m ≡ ok tt) × (k ≡ ok tt)
    both (ok tt) h = (refl, h)
    both (err e) h = absurd (cc)

module _ {Q : Type 0} ⦃q : Quantity Q⦄ (reader : Reader Q) {items : List (ProjectResourceQuota Q)}
    (listed : reader.list ≡ ok items) where
  -- When the projects can be listed, a project may be created exactly if no other project lists
  -- one of its namespaces and it limits supported resources only.
  pub validate_create_iff :
      (prq : ProjectResourceQuota Q)
      → (validate_create reader prq ≡ ok tt) ↔ (
          All (IsNoConflict prq.meta.name prq.spec.namespaces) items
          × All IsSupported (keys prq.spec.hard))
  unfolding validate_create
  validate_create_iff prq =
      then_iff (validate_namespace_iff reader prq.meta.name prq.spec.namespaces listed)
        (validate_resource_name_iff prq.spec.hard)

  -- When the projects can be listed, a project may be updated exactly if no other project lists
  -- one of its new namespaces, its new limits are for supported resources, and for each of the
  -- twenty resources the usage in its status is within the new limit, a limit or usage that is not
  -- set counting as zero.
  pub validate_update_iff :
      (old_prq new_prq : ProjectResourceQuota Q)
      → (validate_update reader old_prq new_prq ≡ ok tt) ↔ (
          All (IsNoConflict new_prq.meta.name new_prq.spec.namespaces) items
          × (All IsSupported (keys new_prq.spec.hard) × All (IsWithin new_prq) resource_name_list))
  unfolding validate_update
  validate_update_iff old_prq new_prq =
      then_iff (validate_namespace_iff reader new_prq.meta.name new_prq.spec.namespaces listed) (
        then_iff (validate_resource_name_iff new_prq.spec.hard)
          (IsWithin-of_ok new_prq resource_name_list, ok_of_within new_prq resource_name_list))
