-- ===== src/Controller/Strip/Marks.antt =====
-- Objects with and without the annotation, and lists of them.
use projectresourcequota.Prelude.{
  String, ◌≡◌, refl, ap, ◌∙◌, inl, inr, Bool, false, not, ◌&&◌, eq_iff, eq_refl, List, [], ◌∷◌, All,
  All-map, contains, arith, Bool-cases, if◌then◌else◌,
}
use projectresourcequota.Util.Annotations.{erase-entries}
use projectresourcequota.Dict.{is_found}
use projectresourcequota.Api.{Object}
use projectresourcequota.Api.Result.{Result, ok, err}
use projectresourcequota.Util.{object_accessor, erase_key, is_annotation_exists}
use projectresourcequota.Controller.Cluster.Laws.{is_same, stored, listed_after}

-- Whether an object has the annotation of a project, whichever it names.
abbrev pub is_marked : {B : Type 0} → Object B → Bool
is_marked obj = is_annotation_exists obj "project-resource-quota"

abbrev pub IsFree : {B : Type 0} → Object B → Type 0
IsFree obj = is_marked obj ≡ false

-- The names of the objects of a list that have the annotation.
abbrev pub marked_names : {B : Type 0} → List (Object B) → List String
marked_names [] = []
marked_names (o ∷ rest) = if is_marked o then o.meta.name ∷ marked_names rest else marked_names rest

unfoldable pub without_annotation : {B : Type 0} → Object B → Object B
without_annotation obj = record obj {
  meta = record obj.meta { annotations = erase_key "project-resource-quota" obj.meta.annotations };
}

pub without_annotation-namespace :
    {B : Type 0} (obj : Object B) → (without_annotation obj).meta.namespace ≡ obj.meta.namespace
unfolding without_annotation
without_annotation-namespace obj = refl

pub without_annotation-IsFree : {B : Type 0} (obj : Object B) → IsFree (without_annotation obj)
unfolding without_annotation is_annotation_exists
without_annotation-IsFree obj =
    ap is_found
      (erase-entries "project-resource-quota" "project-resource-quota" obj.meta.annotations)
    ∙ (ground (arith, eq_refl "project-resource-quota"))

-- A property of each object of a list, if there is one.
abbrev pub AllListed : {Q A : Type 0} → (A → Type 0) → Result Q (List A) → Type 0
AllListed P (ok items) = All P items
AllListed P (err e) = Unit

abbrev pub IsPendingIn : {B : Type 0} → List String → Object B → Type 0
IsPendingIn names o = (is_marked o && not (contains o.meta.name names)) ≡ false

pending_head :
    {B : Type 0} (o : Object B) (rest : List (Object B)) → IsPendingIn (marked_names (o ∷ rest)) o
pending_head o rest = ground (arith, eq_refl o.meta.name)

pending_later :
    {B : Type 0} (o : Object B) (rest : List (Object B)) (x : Object B)
    → IsPendingIn (marked_names rest) x
    → IsPendingIn (marked_names (o ∷ rest)) x
pending_later o rest x h = ground arith

pub all_pending :
    {B : Type 0} (items : List (Object B)) → All (IsPendingIn (marked_names items)) items
all_pending [] = tt
all_pending (o ∷ rest) = (
  pending_head o rest,
  All-map (IsPendingIn (marked_names rest)) (IsPendingIn (marked_names (o ∷ rest))) rest
      (pending_later o rest) (all_pending rest),
)

pub cleared_of_pending :
    {Q B : Type 0} (r : Result Q (List (Object B)))
    → AllListed (IsPendingIn []) r
    → AllListed IsFree r
cleared_of_pending (err e) h = tt
cleared_of_pending (ok items) h = All-map (IsPendingIn []) IsFree items (λ o e. ground arith) h

-- Storing an object that has no annotation.
stored-IsFree :
    {B : Type 0} (obj : Object B)
    → IsFree obj
    → (items : List (Object B)) → All IsFree items
    → All IsFree (stored obj items)
stored-IsFree obj free [] h = tt
stored-IsFree obj free (o ∷ rest) h = (
  elim (Bool-cases (is_same obj o)) [ inl same ↦ rw same free | inr other ↦ rw other h.0 ],
  stored-IsFree obj free rest h.1,
)

-- Storing it takes its name from the pending ones.
stored-pending :
    {B : Type 0} (ns : String) (obj : Object B) (names : List String)
    → IsFree obj
    → obj.meta.namespace ≡ ns
    → (items : List (Object B)) → All (λ o. o.meta.namespace ≡ ns) items
    → All (IsPendingIn (obj.meta.name ∷ names)) items
    → All (IsPendingIn names) (stored obj items)
stored-pending ns obj names free here [] there h = tt
stored-pending ns obj names free here (o ∷ rest) there h = (
  elim (Bool-cases (is_same obj o)) [
    | inl same ↦ rw (same, free)
    | inr other ↦
        rw other
          (ground (arith, h.0, other, here, there.0, eq_iff obj.meta.namespace o.meta.namespace))
  ],
  stored-pending ns obj names free here rest there.1 h.1,
)

module _ {Q : Type 0} where
  pub listed_after-IsFree :
      {B : Type 0} (obj : Object B)
      → IsFree obj
      → (r : Result Q (List (Object B))) → AllListed IsFree r
      → AllListed IsFree (listed_after obj r)
  listed_after-IsFree obj free (ok items) h = stored-IsFree obj free items h
  listed_after-IsFree obj free (err e) h = tt

  pub listed_after-pending :
      {B : Type 0} (ns : String) (obj : Object B) (names : List String)
      → IsFree obj
      → obj.meta.namespace ≡ ns
      → (r : Result Q (List (Object B))) → AllListed (λ o. o.meta.namespace ≡ ns) r
      → AllListed (IsPendingIn (obj.meta.name ∷ names)) r
      → AllListed (IsPendingIn names) (listed_after obj r)
  listed_after-pending ns obj names free here (ok items) there h =
      stored-pending ns obj names free here items there h
  listed_after-pending ns obj names free here (err e) there h = tt
