-- ===== src/Dict/Order.antt =====
-- A Go map has no order: two association lists are the same map if they find the same values.
use projectresourcequota.Prelude.{String, ◌≡◌, ap}
use projectresourcequota.Dict.{Dict, lookup, has, is_found}

abbrev pub SameMap {ℓ} : {V : Type ℓ} → Dict V → Dict V → Type ℓ
SameMap d d' = (k : String) → lookup k d ≡ lookup k d'

pub has-same {ℓ} : {V : Type ℓ} (d d' : Dict V) → SameMap d d' → (k : String) → has k d ≡ has k d'
has-same d d' same k = ap is_found (same k)
