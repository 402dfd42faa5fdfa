-- ===== src/Quantity.antt =====
-- Amounts of a resource: what the program uses of `resource.Quantity` (k8s.io/apimachinery), which
-- is not part of the repository. The operations are parameters, with the laws that the package
-- documents: a quantity is an exact decimal number of at most nine places, so it has an integer
-- amount, counted in billionths of the unit; `Add` adds and `Cmp` compares these amounts.
use projectresourcequota.Prelude.{ℕ, ◌*◌, ◌≡◌, Bool}
use projectresourcequota.Prelude.Int.{
  ℤ, pos, negsuc, ◌+ℤ◌, ◌==ℤ◌, ltb_ℤ, compare_ℤ, compare_ℤ_gt, compare_ℤ_lt,
}

-- Amounts are counted in billionths.
abbrev pub nano : ℕ
nano = 1000000000

pub record Quantity (Q : Type 0) : Type 0 where
  -- `resource.Quantity{}`, which a map yields on a missing key
  pub zero_value : Q
  -- `q.Add(y)`: the new value of `q`
  pub add : Q → Q → Q
  -- `q.Cmp(y)`: -1, 0 or 1
  pub cmp : Q → Q → ℤ
  -- `q.DeepCopy()`
  pub deep_copy : Q → Q
  -- `resource.MustParse(fmt.Sprintf("%d", n))`
  pub of_count : ℕ → Q
  -- The number that a quantity stands for, in billionths.
  pub amount : Q → ℤ
  pub amount-zero_value : amount zero_value ≡ pos 0
  pub amount-add : (x y : Q) → amount (add x y) ≡ amount x +ℤ amount y
  pub cmp_lem : (x y : Q) → cmp x y ≡ compare_ℤ (amount x) (amount y)
  pub deep_copy_lem : (x : Q) → deep_copy x ≡ x
  pub amount-of_count : (n : ℕ) → amount (of_count n) ≡ pos (n * nano)

module _ {Q : Type 0} ⦃q : Quantity Q⦄ where
  -- `x.Cmp(y) == 1`
  abbrev pub is_above : Q → Q → Bool
  is_above x y = q.cmp x y ==ℤ pos 1

  -- `x.Cmp(y) == -1`
  abbrev pub is_below : Q → Q → Bool
  is_below x y = q.cmp x y ==ℤ negsuc 0

  pub is_above_lem : (x y : Q) → is_above x y ≡ ltb_ℤ (q.amount y) (q.amount x)
  is_above_lem x y = rw q.cmp_lem (compare_ℤ_gt (q.amount x) (q.amount y))

  pub is_below_lem : (x y : Q) → is_below x y ≡ ltb_ℤ (q.amount x) (q.amount y)
  is_below_lem x y = rw q.cmp_lem (compare_ℤ_lt (q.amount x) (q.amount y))
