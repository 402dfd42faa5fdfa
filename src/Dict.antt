-- ===== src/Dict.antt =====
-- Go maps with string keys, as association lists in the order of an iteration. A `range` over a
-- map may take any order.
-- A map that may be nil is an `Option`; reading from nil finds nothing, as `entries` says.
pub mod Laws
pub mod Order
use projectresourcequota.Prelude.{
  String, Bool, true, false, ◌≡◌, Option, none, some, List, [], ◌∷◌, ◌==◌, if◌then◌else◌,
}

abbrev pub Dict {ℓ} : Type ℓ → Type ℓ
Dict V = List (String × V)

-- `_, found := …`
abbrev pub is_found {ℓ} : {A : Type ℓ} → Option A → Bool
is_found none = false
is_found (some _) = true

module _ {ℓ} {V : Type ℓ} where
  -- `m[k]`, with whether it was found
  unfoldable pub lookup : String → Dict V → Option V
  lookup k [] = none
  lookup k ((j, v) ∷ d) = if j == k then some v else lookup k d

  -- `_, found := m[k]`
  abbrev pub has : String → Dict V → Bool
  has k d = is_found (lookup k d)

  -- `m[k] = v`
  unfoldable pub insert : String → V → Dict V → Dict V
  insert k v [] = (k, v) ∷ []
  insert k v ((j, w) ∷ d) = if j == k then (k, v) ∷ d else (j, w) ∷ insert k v d

  -- `delete(m, k)`
  unfoldable pub erase : String → Dict V → Dict V
  erase k [] = []
  erase k ((j, v) ∷ d) = let rest = erase k d in if j == k then rest else (j, v) ∷ rest

  -- The keys in the order of a `range`.
  abbrev pub keys : Dict V → List String
  keys [] = []
  keys ((j, v) ∷ d) = j ∷ keys d

  -- No key is listed twice, as in every Go map.
  abbrev pub IsMap : Dict V → Type 0
  IsMap [] = Unit
  IsMap ((j, v) ∷ d) = (has j d ≡ false) × IsMap d

  -- What a read of a map that may be nil sees.
  abbrev pub entries : Option (Dict V) → Dict V
  entries none = []
  entries (some d) = d
