-- ===== src/Util.antt =====
-- api/v1/util.go: finalizers and annotations of any API object.
-- `meta.Accessor` of k8s.io/apimachinery is the interface `Accessor`; its error on something that
-- is no API object is `none`. A struct that embeds an `ObjectMeta` gives that as its metadata.
pub mod Finalizers
pub mod Annotations
use projectresourcequota.Prelude.{
  String, ◌≡◌, refl, Bool, true, false, Option, none, some, List, [], ◌∷◌, ◌++◌, ◌==◌, contains,
  if◌then◌else◌,
}
use projectresourcequota.Dict.{Dict, lookup, has, insert, erase, entries}
use projectresourcequota.Api.{ObjectMeta, Object, ProjectResourceQuota}
use projectresourcequota.Api.Result.{Result, ok, err, invalid_object}

pub record Accessor (T : Type 0) : Type 0 where
  -- `meta.Accessor(obj)`
  pub metadata : T → Option ObjectMeta
  -- What the setters of the interface write through to the object.
  pub set_metadata : ObjectMeta → T → T
  pub metadata-set_metadata :
      (t : T) (m m' : ObjectMeta) → metadata t ≡ some m → metadata (set_metadata m' t) ≡ some m'

instance abbrev pub object_accessor : {B : Type 0} → Accessor (Object B)
object_accessor = record {
  metadata = λ t. some t.meta;
  set_metadata = λ m t. record t { meta = m };
  metadata-set_metadata = λ t m m' h. refl;
}

instance abbrev pub project_accessor : {Q : Type 0} → Accessor (ProjectResourceQuota Q)
project_accessor = record {
  metadata = λ t. some t.meta;
  set_metadata = λ m t. record t { meta = m };
  metadata-set_metadata = λ t m m' h. refl;
}

-- The list without the entries that are `name`, in a loop that skips them.
unfoldable pub without : String → List String → List String
without name [] = []
without name (f ∷ fs) = let rest = without name fs in if f == name then rest else f ∷ rest

-- The finalizers with `name` appended, unless it is there.
unfoldable pub appended : String → List String → List String
appended name fs = if contains name fs then fs else fs ++ name ∷ []

-- `delete(annos, key)`: on a nil map it does nothing.
abbrev pub erase_key : String → Option (Dict String) → Option (Dict String)
erase_key key none = none
erase_key key (some annos) = some (erase key annos)

abbrev pub has_key : String → Option ObjectMeta → Bool
has_key key none = false
has_key key (some m) = has key (entries m.annotations)

module _ {Q T : Type 0} ⦃a : Accessor T⦄ where
  abbrev pub replaced : (ObjectMeta → ObjectMeta) → T → Option ObjectMeta → Result Q T
  replaced f obj none = err invalid_object
  replaced f obj (some m) = ok (a.set_metadata (f m) obj)

  -- The frame of the functions below: get the metadata or fail, and set something anew.
  abbrev pub with_metadata : (ObjectMeta → ObjectMeta) → T → Result Q T
  with_metadata f obj = replaced f obj (a.metadata obj)

  unfoldable pub add_finalizer : String → T → Result Q T
  unfolding appended
  add_finalizer name obj =
      with_metadata (λ m. record m { finalizers = appended name m.finalizers }) obj

  unfoldable pub remove_finalizer : String → T → Result Q T
  unfolding without
  remove_finalizer name obj =
      with_metadata (λ m. record m { finalizers = without name m.finalizers }) obj

  unfoldable pub add_annotation : T → String → String → Result Q T
  add_annotation obj key val =
      with_metadata (λ m. record m { annotations = some (insert key val (entries m.annotations)) })
        obj

  unfoldable pub remove_annotation : T → String → Result Q T
  remove_annotation obj key =
      with_metadata (λ m. record m { annotations = erase_key key m.annotations }) obj

module _ {T : Type 0} ⦃a : Accessor T⦄ where
  unfoldable pub is_annotation_exists : T → String → Bool
  is_annotation_exists obj key = has_key key (a.metadata obj)
