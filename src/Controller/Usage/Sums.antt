-- ===== src/Controller/Usage/Sums.antt =====
-- The amounts that the operations on resource lists leave, and the sums that the loops compute.
use projectresourcequota.Prelude.{
  ℕ, ◌+◌, ◌*◌, String, ◌≡◌, refl, ap, sym, subst, ◌∙◌, Bool, true, false, Option, none, some, List,
  [], ◌∷◌, ◌==◌, eq_iff, eq_refl, contains, arith, Bool-cases, inl, inr, ◌⊎◌, if◌then◌else◌,
}
use projectresourcequota.Prelude.Int.{ℤ, pos, ◌+ℤ◌, int_laws, +ℤ-zero, zero-+ℤ, +ℤ_assoc}
use projectresourcequota.Dict.{Dict, IsMap, lookup, has, insert, erase, keys}
use projectresourcequota.Dict.Laws.{lookup-insert, lookup-erase, contains-keys}
use projectresourcequota.Quantity.{Quantity, nano}
use projectresourcequota.Api.{Object, Pod, ResourceList}
use projectresourcequota.Api.Names.{ResourceName}
use projectresourcequota.Webhook.Counting.{at, or_zero}
use projectresourcequota.Controller.Usage.{
  is_counted_pod, count_where, new_entry, add_entry, add_resource_list, add_used, add_limited,
  erase_each, reset_used, pod_totals,
}

-- The sum of a measure over the entries that pass a test.
abbrev pub sum_where {ℓ} : {A : Type ℓ} → (A → Bool) → (A → ℤ) → List A → ℤ
sum_where test f [] = pos 0
sum_where test f (x ∷ xs) = (if test x then f x else pos 0) +ℤ sum_where test f xs

-- The sum of what each namespace of a list is charged.
abbrev pub total_over : (String → ℤ) → List String → ℤ
total_over charge [] = pos 0
total_over charge (namespace ∷ rest) = charge namespace +ℤ total_over charge rest

-- One object is a billion billionths.
abbrev pub one : ℤ
one = pos nano

count_where_lem :
    {B : Type 0} (test : Object B → Bool) (n : ℕ) (xs : List (Object B))
    → pos (count_where test n xs * nano) ≡ pos (n * nano) +ℤ sum_where test (λ _. one) xs
unfolding count_where
count_where_lem test n [] = omega int_laws
count_where_lem test n (x ∷ xs) = elim (Bool-cases (test x)) [
  | inl passed ↦ rw passed (count_where_lem test (n + 1) xs ∙ omega int_laws)
  | inr skipped ↦ rw skipped (count_where_lem test n xs ∙ omega int_laws)
]

pub amount-count_where :
    {Q B : Type 0} (q : Quantity Q) (test : Object B → Bool) (xs : List (Object B))
    → q.amount (q.of_count (count_where test 0 xs)) ≡ sum_where test (λ _. one) xs
amount-count_where q test xs =
    q.amount-of_count (count_where test 0 xs)
    ∙ count_where_lem test 0 xs
    ∙ zero-+ℤ (sum_where test (λ _. one) xs)

module _ {Q : Type 0} ⦃q : Quantity Q⦄ where
  -- The amount of a resource in a list, zero if it is not there.
  abbrev pub amount_at : ResourceList Q → ResourceName → ℤ
  amount_at rl m = q.amount (at rl m)

  at-insert :
      (n m : ResourceName) (x : Q) (rl : ResourceList Q)
      → at (insert n x rl) m ≡ (if n == m then x else at rl m)
  unfolding at
  at-insert n m x rl = ground (arith, lookup-insert n m x rl)

  -- Setting a key to a value whose amount has grown by that of `x`.
  amount_at-grown :
      (n m : ResourceName) (v x : Q) (rl : ResourceList Q)
      → q.amount v ≡ amount_at rl n +ℤ q.amount x
      → amount_at (insert n v rl) m ≡ amount_at rl m +ℤ (if n == m then q.amount x else pos 0)
  amount_at-grown n m v x rl grown =
      ap q.amount (at-insert n m v rl) ∙ by_name (Bool-cases (n == m))
    where
      by_name :
          (n == m ≡ true) ⊎ (n == m ≡ false)
          → q.amount (if n == m then v else at rl m)
            ≡ amount_at rl m +ℤ (if n == m then q.amount x else pos 0)
      by_name (inl same) =
          rw same (grown ∙ ap (λ k. amount_at rl k +ℤ q.amount x) ((eq_iff n m).0 same))
      by_name (inr other) = rw other (sym (+ℤ-zero (amount_at rl m)))

  pub amount_at-add_used :
      (n m : ResourceName) (x : Q) (used : ResourceList Q)
      → amount_at (add_used n x used) m ≡ amount_at used m +ℤ (if n == m then q.amount x else pos 0)
  unfolding add_used
  amount_at-add_used n m x used =
      amount_at-grown n m (q.add (at used n) x) x used (q.amount-add (at used n) x)

  amount-new_entry :
      (x : Q) (o : Option Q) → q.amount (new_entry x o) ≡ q.amount (or_zero o) +ℤ q.amount x
  amount-new_entry x none = rw (q.deep_copy_lem, q.amount-zero_value) (sym (zero-+ℤ (q.amount x)))
  amount-new_entry x (some current) = q.amount-add current x

  amount_at-add_entry :
      (n m : ResourceName) (x : Q) (dst : ResourceList Q)
      → amount_at (add_entry n x dst) m ≡ amount_at dst m +ℤ (if n == m then q.amount x else pos 0)
  unfolding add_entry at
  amount_at-add_entry n m x dst =
      amount_at-grown n m (new_entry x (lookup n dst)) x dst (amount-new_entry x (lookup n dst))

pub amount_at-nil :
    {Q : Type 0} (q : Quantity Q) (m : ResourceName) → q.amount (at ⦃q = q⦄ [] m) ≡ pos 0
unfolding at lookup
amount_at-nil q m = q.amount-zero_value

module _ {Q : Type 0} ⦃q : Quantity Q⦄ where
  -- What a table charges to one resource, where the resources are limited.
  abbrev pub charged : ResourceList Q → ResourceName → List (ResourceName × Q) → ℤ
  charged hard m [] = pos 0
  charged hard m ((n, x) ∷ rest) =
      (if has n hard then (if n == m then q.amount x else pos 0) else pos 0) +ℤ charged hard m rest

  pub amount_at-add_limited :
      (hard : ResourceList Q) (m : ResourceName) (table : List (ResourceName × Q))
      (used : ResourceList Q)
      → amount_at (add_limited hard table used) m ≡ amount_at used m +ℤ charged hard m table
  unfolding add_limited
  amount_at-add_limited hard m [] used = sym (+ℤ-zero (amount_at used m))
  amount_at-add_limited hard m ((n, x) ∷ rest) used =
      by_limit (amount_at-add_limited hard m rest) (Bool-cases (has n hard))
    where
      by_limit :
          ((u : ResourceList Q)
            → amount_at (add_limited hard rest u) m ≡ amount_at u m +ℤ charged hard m rest)
          → (has n hard ≡ true) ⊎ (has n hard ≡ false)
          → amount_at (add_limited hard ((n, x) ∷ rest) used) m
            ≡ amount_at used m +ℤ charged hard m ((n, x) ∷ rest)
      by_limit later (inl limited) = rw limited (
          later (add_used n x used)
          ∙ ap (λ a. a +ℤ charged hard m rest) (amount_at-add_used n m x used)
          ∙ +ℤ_assoc _ _ _)
      by_limit later (inr free) =
          rw free
            (later used ∙ ap (λ a. amount_at used m +ℤ a) (sym (zero-+ℤ (charged hard m rest))))

  -- A charge to one resource, and then a table.
  pub amount_at-charge_table :
      (hard : ResourceList Q) (m : ResourceName) (table : List (ResourceName × Q))
      (name : ResourceName) (x : Q) (used : ResourceList Q)
      → amount_at (add_limited hard table (add_used name x used)) m
        ≡ amount_at used m +ℤ ((if name == m then q.amount x else pos 0) +ℤ charged hard m table)
  amount_at-charge_table hard m table name x used =
      amount_at-add_limited hard m table (add_used name x used)
      ∙ ap (λ a. a +ℤ charged hard m table) (amount_at-add_used name m x used)
      ∙ +ℤ_assoc _ _ _

  pub amount_at-not_has :
      (m : ResourceName) (rl : ResourceList Q) → has m rl ≡ false → amount_at rl m ≡ pos 0
  unfolding at
  amount_at-not_has m rl h = ap (λ o. q.amount (or_zero o)) (none_of m rl h) ∙ q.amount-zero_value
    where
      none_of : (m : ResourceName) (rl : ResourceList Q) → has m rl ≡ false → lookup m rl ≡ none
      none_of m rl h = ground arith

  amount_at-cons :
      (n m : ResourceName) (x : Q) (rl : ResourceList Q)
      → amount_at ((n, x) ∷ rl) m ≡ (if n == m then q.amount x else amount_at rl m)
  unfolding at lookup
  amount_at-cons n m x rl = ground arith

  pub amount_at-add_resource_list :
      (m : ResourceName) (src dst : ResourceList Q)
      → IsMap src
      → amount_at (add_resource_list dst src) m ≡ amount_at dst m +ℤ amount_at src m
  unfolding add_resource_list
  amount_at-add_resource_list m [] dst h =
      sym (ap (λ a. amount_at dst m +ℤ a) (amount_at-nil q m) ∙ +ℤ-zero (amount_at dst m))
  amount_at-add_resource_list m ((n, x) ∷ src) dst h =
      amount_at-add_resource_list m src (add_entry n x dst) h.1
      ∙ ap (λ a. a +ℤ amount_at src m) (amount_at-add_entry n m x dst)
      ∙ +ℤ_assoc _ _ _
      ∙ ap (λ a. amount_at dst m +ℤ a) (head_first (Bool-cases (n == m)))
    where
      head_first :
          (n == m ≡ true) ⊎ (n == m ≡ false)
          → (if n == m then q.amount x else pos 0) +ℤ amount_at src m ≡ amount_at ((n, x) ∷ src) m
      head_first (inl same) =
          let absent : has m src ≡ false =
            subst (λ k. has k src ≡ false) ((eq_iff n m).0 same) h.0 in
          rw (amount_at-cons, same)
            (ap (λ a. q.amount x +ℤ a) (amount_at-not_has m src absent) ∙ +ℤ-zero (q.amount x))
      head_first (inr other) = rw (amount_at-cons, other) (zero-+ℤ (amount_at src m))

  pub amount_at-pod_totals :
      {B : Type 0} (resources : Pod B → ResourceList Q) (m : ResourceName) (pods : List (Pod B))
      (total : ResourceList Q)
      → ((pod : Pod B) → IsMap (resources pod))
      → amount_at (pod_totals resources total pods) m
        ≡ amount_at total m +ℤ sum_where is_counted_pod (λ pod. amount_at (resources pod) m) pods
  unfolding pod_totals
  amount_at-pod_totals resources m [] total maps = sym (+ℤ-zero (amount_at total m))
  amount_at-pod_totals resources m (pod ∷ rest) total maps =
      by_test (λ t. amount_at-pod_totals resources m rest t maps) (Bool-cases (is_counted_pod pod))
    where
      by_test :
          ((t : ResourceList Q)
            → amount_at (pod_totals resources t rest) m
              ≡ amount_at t m +ℤ sum_where is_counted_pod (λ p. amount_at (resources p) m) rest)
          → (is_counted_pod pod ≡ true) ⊎ (is_counted_pod pod ≡ false)
          → amount_at (pod_totals resources total (pod ∷ rest)) m
            ≡ amount_at total m
              +ℤ sum_where is_counted_pod (λ p. amount_at (resources p) m) (pod ∷ rest)
      by_test later (inl counted) = rw counted (
          later (add_resource_list total (resources pod))
          ∙ ap (λ a. a +ℤ sum_where is_counted_pod (λ p. amount_at (resources p) m) rest)
              (amount_at-add_resource_list m (resources pod) total (maps pod))
          ∙ +ℤ_assoc _ _ _)
      by_test later (inr skipped) = rw skipped (
          later total
          ∙ ap (λ a. amount_at total m +ℤ a)
              (sym (zero-+ℤ (sum_where is_counted_pod (λ p. amount_at (resources p) m) rest))))

erase_each-nil :
    {V : Type 0} (ks : List String) (d : Dict V)
    → ((x : String) → has x d ≡ true → contains x ks ≡ true)
    → erase_each ks d ≡ []
unfolding erase_each
erase_each-nil [] [] covered = refl
erase_each-nil [] ((j, v) ∷ d) covered =
    absurd (cc (covered j (unfold lookup in ground (arith, eq_refl j))))
erase_each-nil (k ∷ rest) d covered =
    erase_each-nil rest (erase k d) λ x h. ground (arith, covered x, lookup-erase k x d, eq_iff k x)

-- The calculation starts from an empty map, whatever the old status was.
pub reset_used_lem : {Q : Type 0} (used : Option (ResourceList Q)) → reset_used used ≡ []
unfolding reset_used
reset_used_lem none = refl
reset_used_lem (some used) = erase_each-nil (keys used) used (λ x h. contains-keys x used ∙ h)
