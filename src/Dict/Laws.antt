-- ===== src/Dict/Laws.antt =====
-- What a lookup finds after an assignment and after a deletion.
use projectresourcequota.Prelude.{
  String, Bool, true, false, ◌≡◌, refl, Option, none, some, List, [], ◌∷◌, arith, ◌==◌, ◌&&◌, not,
  eq_iff, eq_refl, contains, if◌then◌else◌,
}
use projectresourcequota.Dict.{Dict, lookup, has, insert, erase, keys}

module _ {ℓ} {V : Type ℓ} where
  pub lookup-insert :
      (k j : String) (v : V) (d : Dict V)
      → lookup j (insert k v d) ≡ (if k == j then some v else lookup j d)
  unfolding lookup insert
  lookup-insert k j v [] = refl
  lookup-insert k j v ((i, w) ∷ d) =
      ground (arith, lookup-insert k j v d, eq_iff k j, eq_iff i k, eq_iff i j)

  pub lookup-erase :
      (k j : String) (d : Dict V) → lookup j (erase k d) ≡ (if k == j then none else lookup j d)
  unfolding lookup erase
  lookup-erase k j [] = ground arith
  lookup-erase k j ((i, w) ∷ d) =
      ground (arith, lookup-erase k j d, eq_iff k j, eq_iff i k, eq_iff i j)

  -- A key is found exactly when a `range` meets it.
  pub contains-keys : (k : String) (d : Dict V) → contains k (keys d) ≡ has k d
  unfolding lookup
  contains-keys k [] = refl
  contains-keys k ((i, w) ∷ d) = ground (arith, contains-keys k d)

pub ruleset dict_laws = (lookup-insert, lookup-erase, eq_refl)
