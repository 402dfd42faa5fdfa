-- ===== src/Controller/Strip/Cleared.antt =====
-- After `remove_annotation_from_objects`, nothing in the given namespaces is annotated.
use projectresourcequota.Prelude.{
  String, ◌≡◌, refl, sym, ap, subst, ◌⊎◌, inl, inr, true, false, List, [], ◌∷◌, All, Bool-cases,
}
use projectresourcequota.Api.{Kind, Object, Body}
use projectresourcequota.Api.Result.{Result, ok, err}
use projectresourcequota.Util.{object_accessor, remove_annotation}
use projectresourcequota.Controller.Cluster.{Client, reads}
use projectresourcequota.Controller.Cluster.Laws.{
  IsStore, kind_cases, bind_ok, Preserves, Ensures, then-Preserves,
}
use projectresourcequota.Controller.Strip.{strip_object, strip_items, strip_kind}
use projectresourcequota.Controller.Strip.Marks.{
  is_marked, IsFree, marked_names, without_annotation, without_annotation-IsFree, AllListed,
  IsPendingIn, all_pending, cleared_of_pending, listed_after-IsFree, listed_after-pending,
}

module _ {Q B S : Type 0} (client : Client Q B S) (store : IsStore client) where
  -- No object that is listed has the annotation.
  abbrev pub IsCleared : Kind → String → S → Type 0
  IsCleared k ns s = AllListed IsFree (client.list k ns s)

  -- What has the annotation is among the objects of these names.
  abbrev IsPending : Kind → String → List String → S → Type 0
  IsPending k ns names s = AllListed (IsPendingIn names) (client.list k ns s)

  pub strip_object_cases :
      (k : Kind) (obj : Object (Body B k)) (s s' : S)
      → strip_object client k obj s ≡ (ok tt, s')
      → ((is_marked obj ≡ false) × (s ≡ s'))
        ⊎ ((is_marked obj ≡ true) × (client.update k (without_annotation obj) s ≡ (ok tt, s')))
  unfolding strip_object remove_annotation without_annotation
  strip_object_cases k obj s s' h = elim (Bool-cases (is_marked obj)) [
    | inl marked ↦ inr (marked, rw marked at h)
    | inr free ↦ inl (free, ap (λ p. p.1) (rw free at h))
  ]

  -- A successful update to an object without the annotation leaves a cleared list cleared.
  update-IsCleared :
      (k : Kind) (obj : Object (Body B k)) (s s' : S) (other : Kind) (ns : String)
      → IsFree obj
      → client.update k obj s ≡ (ok tt, s')
      → IsCleared other ns s
      → IsCleared other ns s'
  update-IsCleared k obj s s' other ns free updated = elim (kind_cases k other) [
    | inl same ↦
        subst (λ x. IsCleared x ns s → IsCleared x ns s') same
          λ clear.
            subst (AllListed IsFree) (sym (store.update-list k obj s s' ns updated))
              (listed_after-IsFree obj free (client.list k ns s) clear)
    | inr differ ↦ λ clear.
        subst (AllListed IsFree) (sym (store.update-other k obj s s' other ns updated differ)) clear
  ]

  -- Whatever is stripped, a cleared list stays cleared.
  strip_object-IsCleared :
      (k : Kind) (obj : Object (Body B k)) (s s' : S) (other : Kind) (ns : String)
      → strip_object client k obj s ≡ (ok tt, s')
      → IsCleared other ns s
      → IsCleared other ns s'
  strip_object-IsCleared k obj s s' other ns h clear = elim (strip_object_cases k obj s s' h) [
    | inl (_, same) ↦ subst (IsCleared other ns) same clear
    | inr (_, updated) ↦
        update-IsCleared k (without_annotation obj) s s' other ns (without_annotation-IsFree obj)
          updated clear
  ]

  pub namespaces_listed :
      (k : Kind) (ns : String) (s : S) (r : Result Q (List (Object (Body B k))))
      → client.list k ns s ≡ r
      → AllListed (λ o. o.meta.namespace ≡ ns) r
  namespaces_listed k ns s (ok items) h = store.list-namespace k ns s items h
  namespaces_listed k ns s (err e) h = tt

  strip_object-IsPending :
      (k : Kind) (obj : Object (Body B k)) (s s' : S) (ns : String)
      (rest : List (Object (Body B k)))
      → obj.meta.namespace ≡ ns
      → strip_object client k obj s ≡ (ok tt, s')
      → IsPending k ns (marked_names (obj ∷ rest)) s
      → IsPending k ns (marked_names rest) s'
  unfolding without_annotation
  strip_object-IsPending k obj s s' ns rest here h pending =
      elim (strip_object_cases k obj s s' h) [
        | inl (free, same) ↦ subst (IsPending k ns (marked_names rest)) same (rw free at pending)
        | inr (marked, updated) ↦
            subst (AllListed (IsPendingIn (marked_names rest)))
              (sym (store.update-list k (without_annotation obj) s s' ns updated))
              (listed_after-pending ns (without_annotation obj) (marked_names rest)
                (without_annotation-IsFree obj) here (client.list k ns s)
                (namespaces_listed k ns s (client.list k ns s) refl) (rw marked at pending))
      ]

  strip_items-IsPending :
      (k : Kind) (ns : String) (items : List (Object (Body B k))) (s s' : S)
      → All (λ o. o.meta.namespace ≡ ns) items
      → strip_items client k items s ≡ (ok tt, s')
      → IsPending k ns (marked_names items) s
      → IsPending k ns [] s'
  unfolding strip_items
  strip_items-IsPending k ns [] s s' there h pending =
      subst (IsPending k ns []) (ap (λ p. p.1) h) pending
  strip_items-IsPending k ns (obj ∷ rest) s s' there h pending =
      let (_, s1, first, later) =
        bind_ok (strip_object client k obj) (λ _. strip_items client k rest) tt s s' h in
      strip_items-IsPending k ns rest s1 s' there.1 later
        (strip_object-IsPending k obj s s1 ns rest there.0 first pending)

  pub strip_items-Preserves :
      (k : Kind) (items : List (Object (Body B k))) (other : Kind) (ns : String)
      → Preserves (IsCleared other ns) (strip_items client k items)
  unfolding strip_items
  strip_items-Preserves k [] other ns s s' h clear =
      subst (IsCleared other ns) (ap (λ p. p.1) h) clear
  strip_items-Preserves k (obj ∷ rest) other ns s s' h clear =
      then-Preserves (IsCleared other ns) (strip_object client k obj) (strip_items client k rest)
        (λ s s' h. strip_object-IsCleared k obj s s' other ns h)
        (strip_items-Preserves k rest other ns) s s' h clear

  pub strip_kind-Preserves :
      (namespace : String) (k : Kind) (other : Kind) (ns : String)
      → Preserves (IsCleared other ns) (strip_kind client namespace k)
  unfolding strip_kind
  strip_kind-Preserves namespace k other ns s s' h clear =
      let (items, s1, first, later) =
        bind_ok (reads (client.list k namespace)) (strip_items client k) tt s s' h in
      strip_items-Preserves k items other ns s1 s' later
        (subst (IsCleared other ns) (ap (λ p. p.1) first) clear)

  pub strip_kind-Ensures :
      (k : Kind) (ns : String) → Ensures (IsCleared k ns) (strip_kind client ns k)
  unfolding strip_kind
  strip_kind-Ensures k ns s s' h =
      let (items, s1, first, later) =
        bind_ok (reads (client.list k ns)) (strip_items client k) tt s s' h in
      let listed = ap (λ p. p.0) first in
      let there = store.list-namespace k ns s items listed in
      let done = strip_items-IsPending k ns items s1 s' there later (
        subst (IsPending k ns (marked_names items)) (ap (λ p. p.1) first) (
          subst (AllListed (IsPendingIn (marked_names items))) (sym listed) (all_pending items))) in
      cleared_of_pending (client.list k ns s') done
