-- ===== src/Util/Annotations.antt =====
-- What `add_annotation`, `remove_annotation` and `is_annotation_exists` do to the annotations.
use projectresourcequota.Prelude.{String, ◌≡◌, Option, none, some, ◌==◌, arith, if◌then◌else◌}
use projectresourcequota.Dict.{Dict, lookup, insert, entries}
use projectresourcequota.Dict.Laws.{lookup-insert, lookup-erase}
use projectresourcequota.Api.{ObjectMeta}
use projectresourcequota.Api.Result.{ok}
use projectresourcequota.Util.{Accessor, erase_key, add_annotation, remove_annotation}

abbrev pub value_at : String → Option ObjectMeta → Option String
value_at key none = none
value_at key (some m) = lookup key (entries m.annotations)

-- `obj.GetAnnotations()[key]` of an object with metadata.
module _ {T : Type 0} ⦃a : Accessor T⦄ where
  abbrev pub annotation_of : T → String → Option String
  annotation_of obj key = value_at key (a.metadata obj)

pub erase-entries :
    (key j : String) (annos : Option (Dict String))
    → lookup j (entries (erase_key key annos))
      ≡ (if key == j then none else lookup j (entries annos))
unfolding lookup
erase-entries key j none = ground arith
erase-entries key j (some d) = lookup-erase key j d

module _ {Q T : Type 0} ⦃a : Accessor T⦄ (obj : T) (key val : String) {m : ObjectMeta}
    (valid : a.metadata obj ≡ some m) where
  -- On an API object, also with a nil map of annotations, adding an annotation succeeds and sets
  -- that key alone; removing it succeeds and takes that key alone away.
  pub annotation_update :
      (obj' obj'' : T) × (add_annotation {Q = Q} obj key val ≡ ok obj')
      × (remove_annotation {Q = Q} obj key ≡ ok obj'')
      × ((j : String) → annotation_of obj' j ≡ (if key == j then some val else annotation_of obj j))
      × ((j : String) → annotation_of obj'' j ≡ (if key == j then none else annotation_of obj j))
  unfolding add_annotation remove_annotation
  annotation_update =
      let m' : ObjectMeta = record m {
        annotations = some (insert key val (entries m.annotations));
      } in
      let m'' : ObjectMeta = record m { annotations = erase_key key m.annotations } in
      (
        a.set_metadata m' obj,
        a.set_metadata m'' obj,
        rw (valid, add_annotation),
        rw (valid, remove_annotation),
        λ j.
            rw (a.metadata-set_metadata obj m m' valid, valid)
              (lookup-insert key j val (entries m.annotations)),
        λ j.
            rw (a.metadata-set_metadata obj m m'' valid, valid) (erase-entries key j m.annotations),
      )
