-- ===== src/Memory.antt =====
-- The memory behind slices and maps, which a copy of a struct shares and a deep copy does not. A
-- slice and a map are addresses, nil is `none`; an address below `next` is in use.
pub mod DeepCopy
pub mod Copied
pub mod Apart
pub mod Projects
use projectresourcequota.Prelude.{
  ℕ, ◌+◌, ◌≤◌, ◌<◌, String, ◌≡◌, Bool, ◌&&◌, Option, some, List, leb, if◌then◌else◌,
}
use projectresourcequota.Dict.{Dict}
use projectresourcequota.Api.{ObjectMeta, ResourceList}

abbrev pub Address : Type 0
Address = ℕ

-- The structs of api/v1/projectresourcequota_types.go as values in memory.
pub record SpecValue : Type 0 where
  pub namespaces : Option Address
  pub hard : Option Address

pub record StatusValue : Type 0 where
  pub used : Option Address
  pub namespaces : Option Address

-- `metav1.TypeMeta`
pub record TypeMeta : Type 0 where
  pub kind : String
  pub api_version : String

-- The metadata is copied by its own package, and stands for what it refers to.
pub record ProjectValue : Type 0 where
  pub type_meta : TypeMeta
  pub meta : ObjectMeta
  pub spec : SpecValue
  pub status : StatusValue

pub record ListValue (L : Type 0) : Type 0 where
  pub type_meta : TypeMeta
  pub meta : L
  pub items : Option Address

-- The arrays of strings and of projects, and the maps of resources.
pub record Memory (Q : Type 0) : Type 0 where
  pub strings : Address → List String
  pub projects : Address → List ProjectValue
  pub resources : Address → ResourceList Q
  pub next : Address

abbrev is_at : Address → Address → Bool
is_at a b = leb a b && leb b a

abbrev pub put : {A : Type 0} → Address → A → (Address → A) → Address → A
put a x cells b = if is_at a b then x else cells b

module _ {Q : Type 0} where
  -- `make`, and what is then written there.
  abbrev pub new_strings : List String → Memory Q → Option Address × Memory Q
  new_strings xs m =
      (some m.next, record m { strings = put m.next xs m.strings; next = m.next + 1 })

  abbrev pub new_resources : ResourceList Q → Memory Q → Option Address × Memory Q
  new_resources rl m =
      (some m.next, record m { resources = put m.next rl m.resources; next = m.next + 1 })

  abbrev pub new_projects : List ProjectValue → Memory Q → Option Address × Memory Q
  new_projects ps m =
      (some m.next, record m { projects = put m.next ps m.projects; next = m.next + 1 })

  -- Two memories have the same cells from one address up to another.
  pub record Agree (from to : Address) (m w : Memory Q) : Type 0 where
    pub strings : (a : Address) → from ≤ a → a < to → w.strings a ≡ m.strings a
    pub projects : (a : Address) → from ≤ a → a < to → w.projects a ≡ m.projects a
    pub resources : (a : Address) → from ≤ a → a < to → w.resources a ≡ m.resources a
