-- ===== src/Api/Result.antt =====
-- Results of the handlers. An error keeps what its message names: the text of the message is not
-- modelled. An error that a client call returned is kept as its text.
use projectresourcequota.Prelude.{String, Bool, true, false}
use projectresourcequota.Api.Names.{ResourceName}

pub data Error (Q : Type 0) : Type 0 where
  -- from the API server, through the client
  client : String → Error Q
  -- `meta.Accessor` on something that is no API object
  invalid_object : Error Q
  -- "over project resource quota. current %s counts %s, hard limit count %s"
  over_count : ResourceName → Q → Q → Error Q
  -- "over project resource quota. %s request %s + used %s > hard limit %s"
  over_quota : ResourceName → Q → Q → Q → Error Q
  -- "missing annotation %s"
  missing_annotation : String → Error Q
  -- "namespace %s is already in project %s"
  namespace_taken : String → String → Error Q
  -- "resource name %s is not supported"
  unsupported_name : ResourceName → Error Q
  -- "hard limit %s is less than used %s"
  hard_below_used : Q → Q → Error Q

pub data Result (Q : Type 0) (A : Type 0) : Type 0 where
  ok : A → Result Q A
  err : Error Q → Result Q A

-- A handler that only accepts or refuses.
abbrev pub Verdict : Type 0 → Type 0
Verdict Q = Result Q (Unit {0})

module _ {Q : Type 0} where
  -- `if err := …; err != nil { return err }` before the rest.
  infixl 5 ◌>>=◌ ◌>>◌
  abbrev pub ◌>>=◌ : {A B : Type 0} → Result Q A → (A → Result Q B) → Result Q B
  ok a >>= f = f a
  err e >>= f = err e

  abbrev pub ◌>>◌ : {B : Type 0} → Verdict Q → Result Q B → Result Q B
  m >> k = m >>= λ _. k

  -- `if c { return err }`
  abbrev pub refuse_if : Bool → Error Q → Verdict Q
  refuse_if true e = err e
  refuse_if false e = ok tt

  abbrev pub is_ok : {A : Type 0} → Result Q A → Bool
  is_ok (ok _) = true
  is_ok (err _) = false
