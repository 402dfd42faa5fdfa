-- ===== src/Util/Finalizers.antt =====
-- What `add_finalizer` and `remove_finalizer` do to the list of finalizers.
use projectresourcequota.Prelude.{
  String, ◌≡◌, false, not, ◌&&◌, ◌||◌, Option, none, some, List, [], ◌∷◌, ◌++◌, ◌==◌, eq_iff,
  eq_refl, contains, contains-append, arith,
}
use projectresourcequota.Api.{ObjectMeta}
use projectresourcequota.Api.Result.{ok}
use projectresourcequota.Util.{Accessor, without, appended, add_finalizer, remove_finalizer}

pub contains-without :
    (f name : String) (fs : List String)
    → contains f (without name fs) ≡ (not (name == f) && contains f fs)
unfolding without
contains-without f name [] = ground arith
contains-without f name (g ∷ fs) =
    ground (arith, contains-without f name fs, eq_iff name f, eq_iff g name, eq_iff g f)

pub contains-appended :
    (f name : String) (fs : List String)
    → contains f (appended name fs) ≡ (name == f || contains f fs)
unfolding appended
contains-appended f name fs = ground (arith, contains-append f fs (name ∷ []), eq_iff name f)

without-append :
    (name : String) (fs : List String)
    → contains name fs ≡ false
    → without name (fs ++ name ∷ []) ≡ fs
unfolding without
without-append name [] h = ground (arith, eq_refl name)
without-append name (f ∷ fs) h = ground (arith, without-append name fs)

appended-again :
    (name : String) (fs : List String) → appended name (appended name fs) ≡ appended name fs
unfolding appended
appended-again name fs = ground (arith, contains-append name fs (name ∷ []), eq_refl name)

without-appended :
    (name : String) (fs : List String)
    → contains name fs ≡ false
    → without name (appended name fs) ≡ fs
unfolding appended
without-appended name fs h = rw h (without-append name fs h)

abbrev pub listed : Option ObjectMeta → List String
listed none = []
listed (some m) = m.finalizers

module _ {T : Type 0} ⦃a : Accessor T⦄ where
  abbrev pub finalizers_of : T → List String
  finalizers_of obj = listed (a.metadata obj)

module _ {Q T : Type 0} ⦃a : Accessor T⦄ (name : String) (obj : T) {m : ObjectMeta}
    (valid : a.metadata obj ≡ some m) where
  add_finalizer_lem :
      (obj' : T) × (add_finalizer {Q = Q} name obj ≡ ok obj')
      × (a.metadata obj' ≡ some (record m { finalizers = appended name m.finalizers }))
  unfolding add_finalizer
  add_finalizer_lem =
      let m' : ObjectMeta = record m { finalizers = appended name m.finalizers } in
      (a.set_metadata m' obj, rw (valid, add_finalizer), a.metadata-set_metadata obj m m' valid)

  remove_finalizer_lem :
      (obj' : T) × (remove_finalizer {Q = Q} name obj ≡ ok obj')
      × (a.metadata obj' ≡ some (record m { finalizers = without name m.finalizers }))
  unfolding remove_finalizer
  remove_finalizer_lem =
      let m' : ObjectMeta = record m { finalizers = without name m.finalizers } in
      (a.set_metadata m' obj, rw (valid, remove_finalizer), a.metadata-set_metadata obj m m' valid)

module _ {Q T : Type 0} ⦃a : Accessor T⦄ (name : String) (obj : T) {m : ObjectMeta}
    (valid : a.metadata obj ≡ some m) where
  -- On an API object, adding a finalizer succeeds, adds that name and no other, and adding it once
  -- more leaves the list of finalizers as it is.
  pub add_finalizer_once :
      (obj' obj'' : T) × (add_finalizer {Q = Q} name obj ≡ ok obj')
      × (add_finalizer {Q = Q} name obj' ≡ ok obj'')
      × ((f : String)
          → contains f (finalizers_of obj') ≡ (name == f || contains f (finalizers_of obj)))
      × (finalizers_of obj'' ≡ finalizers_of obj')
  add_finalizer_once =
      let (obj', e', h') = add_finalizer_lem {Q = Q} name obj valid in
      let (obj'', e'', h'') = add_finalizer_lem {Q = Q} name obj' h' in
      (
        obj',
        obj'',
        e',
        e'',
        λ f. rw (h', valid) (contains-appended f name m.finalizers),
        rw (h'', h') (appended-again name m.finalizers),
      )

  -- On an API object, removing a finalizer succeeds, removes every entry of that name and keeps
  -- all others.
  pub remove_finalizer_all :
      (obj' : T) × (remove_finalizer {Q = Q} name obj ≡ ok obj')
      × ((f : String)
          → contains f (finalizers_of obj') ≡ (not (name == f) && contains f (finalizers_of obj)))
  remove_finalizer_all =
      let (obj', e', h') = remove_finalizer_lem {Q = Q} name obj valid in
      (obj', e', λ f. rw (h', valid) (contains-without f name m.finalizers))

  -- On an API object that does not have a finalizer, adding it and then removing it succeeds and
  -- restores the list of finalizers, in its order.
  pub remove-add_finalizer :
      contains name (finalizers_of obj) ≡ false
      → (obj' obj'' : T) × (add_finalizer {Q = Q} name obj ≡ ok obj')
        × (remove_finalizer {Q = Q} name obj' ≡ ok obj'')
        × (finalizers_of obj'' ≡ finalizers_of obj)
  remove-add_finalizer fresh =
      let (obj', e', h') = add_finalizer_lem {Q = Q} name obj valid in
      let (obj'', e'', h'') = remove_finalizer_lem {Q = Q} name obj' h' in
      (
        obj',
        obj'',
        e',
        e'',
        rw (h'', valid) (without-appended name m.finalizers (rw valid at fresh)),
      )
