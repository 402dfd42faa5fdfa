-- ===== src/Prelude/Lists.antt =====
-- Predicates on lists, and lists of names as the program searches them.
use Prim.Native.String.{String}
use mathlib.Core.Path.{ap, ◌≡◌, refl}
use mathlib.Core.Bool.{Bool, false, ◌&&◌, ◌||◌}
use mathlib.Core.List.{List, [], ◌∷◌, ◌++◌}
use native.Mathlib.Omega.{arith}
use text.Mathlib.Text.{◌==◌}

-- A predicate of every entry; it computes to a tuple.
abbrev pub All {ℓ κ} : {A : Type ℓ} → (A → Type κ) → List A → Type κ
All P [] = Unit
All P (x ∷ xs) = P x × All P xs

pub All-map {ℓ κ} :
    {A : Type ℓ} (P R : A → Type κ) (xs : List A) → ((x : A) → P x → R x) → All P xs → All R xs
All-map P R [] f h = tt
All-map P R (x ∷ xs) f h = (f x h.0, All-map P R xs f h.1)

pub All-append {ℓ κ} :
    {A : Type ℓ} (P : A → Type κ) (xs ys : List A) → All P xs → All P ys → All P (xs ++ ys)
All-append P [] ys hx hy = hy
All-append P (x ∷ xs) ys hx hy = (hx.0, All-append P xs ys hx.1 hy)

pub All-front {ℓ κ} : {A : Type ℓ} (P : A → Type κ) (xs ys : List A) → All P (xs ++ ys) → All P xs
All-front P [] ys h = tt
All-front P (x ∷ xs) ys h = (h.0, All-front P xs ys h.1)

pub All-middle {ℓ κ} :
    {A : Type ℓ} (P : A → Type κ) (xs : List A) (y : A) (ys : List A) → All P (xs ++ y ∷ ys) → P y
All-middle P [] y ys h = h.0
All-middle P (x ∷ xs) y ys h = All-middle P xs y ys h.1

-- Whether a name stands in a list.
abbrev pub contains : String → List String → Bool
contains x [] = false
contains x (y ∷ ys) = y == x || contains x ys

-- Two lists of names have none in common.
abbrev pub ShareNone : List String → List String → Type 0
ShareNone xs ys = (x : String) → (contains x xs && contains x ys) ≡ false

pub ShareNone-symm : (xs ys : List String) → ShareNone xs ys → ShareNone ys xs
ShareNone-symm xs ys h x = ground (arith, h x)

pub contains-append :
    (x : String) (xs ys : List String) → contains x (xs ++ ys) ≡ (contains x xs || contains x ys)
contains-append x [] ys = refl
contains-append x (y ∷ xs) ys = ground (arith, contains-append x xs ys)

-- A relation between each entry and every later one.
abbrev pub Pairwise {ℓ κ} : {A : Type ℓ} → (A → A → Type κ) → List A → Type κ
Pairwise R [] = Unit
Pairwise R (x ∷ xs) = All (R x) xs × Pairwise R xs

-- One entry of a list put in for another, or taken out.
module _ {ℓ κ} {A : Type ℓ} (P : A → Type κ) where
  pub All-replace :
      (xs : List A) (y z : A) (ys : List A) → All P (xs ++ y ∷ ys) → P z → All P (xs ++ z ∷ ys)
  All-replace [] y z ys h p = (p, h.1)
  All-replace (x ∷ xs) y z ys h p = (h.0, All-replace xs y z ys h.1 p)

  pub All-remove : (xs : List A) (y : A) (ys : List A) → All P (xs ++ y ∷ ys) → All P (xs ++ ys)
  All-remove [] y ys h = h.1
  All-remove (x ∷ xs) y ys h = (h.0, All-remove xs y ys h.1)

module _ {ℓ κ} {A : Type ℓ} (R : A → A → Type κ) (symm : (x y : A) → R x y → R y x) where
  pub Pairwise-others :
      (xs : List A) (y : A) (ys : List A) → Pairwise R (xs ++ y ∷ ys) → All (R y) (xs ++ ys)
  Pairwise-others [] y ys h = h.0
  Pairwise-others (x ∷ xs) y ys h =
      (symm x y (All-middle (R x) xs y ys h.0), Pairwise-others xs y ys h.1)

  pub Pairwise-replace :
      (xs : List A) (y z : A) (ys : List A)
      → Pairwise R (xs ++ y ∷ ys)
      → All (R z) (xs ++ ys)
      → Pairwise R (xs ++ z ∷ ys)
  Pairwise-replace [] y z ys h r = (r, h.1)
  Pairwise-replace (x ∷ xs) y z ys h r =
      (All-replace (R x) xs y z ys h.0 (symm z x r.0), Pairwise-replace xs y z ys h.1 r.1)

module _ {ℓ κ} {A : Type ℓ} (R : A → A → Type κ) where
  pub Pairwise-remove :
      (xs : List A) (y : A) (ys : List A) → Pairwise R (xs ++ y ∷ ys) → Pairwise R (xs ++ ys)
  Pairwise-remove [] y ys h = h.1
  Pairwise-remove (x ∷ xs) y ys h = (All-remove (R x) xs y ys h.0, Pairwise-remove xs y ys h.1)

-- What two predicates say together of every entry.
pub All-both {ℓ κ μ ν} :
    {A : Type ℓ} (P : A → Type κ) (R : A → Type μ) (S : A → Type ν)
    → ((x : A) → P x → R x → S x)
    → (xs : List A) → All P xs
    → All R xs
    → All S xs
All-both P R S f [] h k = tt
All-both P R S f (x ∷ xs) h k = (f x h.0 k.0, All-both P R S f xs h.1 k.1)

pub append-nil {ℓ} : {A : Type ℓ} (xs : List A) → xs ++ [] ≡ xs
append-nil [] = refl
append-nil (x ∷ xs) = ap (λ l. x ∷ l) (append-nil xs)
