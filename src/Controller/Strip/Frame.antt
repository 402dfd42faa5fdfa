-- ===== src/Controller/Strip/Frame.antt =====
-- What `remove_annotation_from_objects` leaves alone: the objects of all other namespaces.
use projectresourcequota.Prelude.{
  String, ◌≡◌, refl, sym, ap, subst, ◌∙◌, inl, inr, false, ◌&&◌, ◌==◌, List, [], ◌∷◌, All, contains,
  arith, Bool-cases,
}
use projectresourcequota.Api.{Kind, Object, Body}
use projectresourcequota.Api.Result.{Result, ok, err}
use projectresourcequota.Controller.Cluster.{Client, reads}
use projectresourcequota.Controller.Cluster.Laws.{
  is_same, stored, listed_after, IsStore, kind_cases, bind_ok, Preserves, then-Preserves,
}
use projectresourcequota.Controller.Strip.{
  StringSets, strip_object, strip_items, strip_kind, strip_namespace,
  remove_annotation_from_objects,
}
use projectresourcequota.Controller.Strip.Marks.{
  AllListed, without_annotation, without_annotation-namespace,
}
use projectresourcequota.Controller.Strip.Cleared.{namespaces_listed, strip_object_cases}
use projectresourcequota.Controller.Strip.Namespaces.{
  strip_namespace-Preserves, strip_namespaces-Preserves,
}

stored-elsewhere :
    {B : Type 0} (obj : Object B) (ns : String)
    → (obj.meta.namespace == ns) ≡ false
    → (items : List (Object B)) → All (λ o. o.meta.namespace ≡ ns) items
    → stored obj items ≡ items
stored-elsewhere obj ns away [] there = refl
stored-elsewhere obj ns away (o ∷ rest) there =
    let differ : is_same obj o ≡ false =
      ap (λ n. obj.meta.namespace == n && obj.meta.name == o.meta.name) there.0
      ∙ ap (λ b. b && obj.meta.name == o.meta.name) away in
    rw differ (ap (λ l. o ∷ l) (stored-elsewhere obj ns away rest there.1))

listed_after-elsewhere :
    {Q B : Type 0} (obj : Object B) (ns : String)
    → (obj.meta.namespace == ns) ≡ false
    → (r : Result Q (List (Object B))) → AllListed (λ o. o.meta.namespace ≡ ns) r
    → listed_after obj r ≡ r
listed_after-elsewhere obj ns away (ok items) there =
    ap ok (stored-elsewhere obj ns away items there)
listed_after-elsewhere obj ns away (err e) there = refl

module _ {Q B S : Type 0} (client : Client Q B S) (store : IsStore client) (other : Kind)
    (ns : String) (r : Result Q (List (Object (Body B other)))) where
  abbrev IsUntouched : S → Type 0
  IsUntouched s = client.list other ns s ≡ r

  update-IsUntouched :
      (k : Kind) (obj : Object (Body B k)) (s s' : S)
      → (obj.meta.namespace == ns) ≡ false
      → client.update k obj s ≡ (ok tt, s')
      → client.list other ns s' ≡ client.list other ns s
  update-IsUntouched k obj s s' away updated = elim (kind_cases k other) [
    | inl same ↦
        subst (λ x. client.list x ns s' ≡ client.list x ns s) same
          (store.update-list k obj s s' ns updated
            ∙ listed_after-elsewhere obj ns away (client.list k ns s)
                (namespaces_listed client store k ns s (client.list k ns s) refl))
    | inr differ ↦ store.update-other k obj s s' other ns updated differ
  ]

  strip_object-IsUntouched :
      (k : Kind) (obj : Object (Body B k))
      → (obj.meta.namespace == ns) ≡ false
      → Preserves IsUntouched (strip_object client k obj)
  strip_object-IsUntouched k obj away s s' h same =
      elim (strip_object_cases client store k obj s s' h) [
        | inl (_, unchanged) ↦ subst IsUntouched unchanged same
        | inr (_, updated) ↦
            update-IsUntouched k (without_annotation obj) s s'
              (ap (λ n. n == ns) (without_annotation-namespace obj) ∙ away) updated
            ∙ same
      ]

  strip_items-IsUntouched :
      (k : Kind) (namespace : String)
      → (namespace == ns) ≡ false
      → (items : List (Object (Body B k))) → All (λ o. o.meta.namespace ≡ namespace) items
      → Preserves IsUntouched (strip_items client k items)
  unfolding strip_items
  strip_items-IsUntouched k namespace away [] there s s' h same =
      subst IsUntouched (ap (λ p. p.1) h) same
  strip_items-IsUntouched k namespace away (obj ∷ rest) there s s' h same =
      then-Preserves IsUntouched (strip_object client k obj) (strip_items client k rest)
        (strip_object-IsUntouched k obj (ap (λ n. n == ns) there.0 ∙ away))
        (strip_items-IsUntouched k namespace away rest there.1) s s' h same

  strip_kind-IsUntouched :
      (namespace : String)
      → (namespace == ns) ≡ false
      → (k : Kind) → Preserves IsUntouched (strip_kind client namespace k)
  unfolding strip_kind
  strip_kind-IsUntouched namespace away k s s' h same =
      let (items, s1, first, later) =
        bind_ok (reads (client.list k namespace)) (strip_items client k) tt s s' h in
      strip_items-IsUntouched k namespace away items
        (store.list-namespace k namespace s items (ap (λ p. p.0) first)) s1 s' later
        (subst IsUntouched (ap (λ p. p.1) first) same)

  strip_namespaces-IsUntouched :
      (nss : List String)
      → contains ns nss ≡ false
      → All (λ n. Preserves IsUntouched (strip_namespace client n)) nss
  strip_namespaces-IsUntouched [] absent = tt
  strip_namespaces-IsUntouched (n ∷ rest) absent = (
    strip_namespace-Preserves client IsUntouched n (λ k. strip_kind-IsUntouched n (ground arith) k),
    strip_namespaces-IsUntouched rest (ground arith),
  )

module _ {Q B S N : Type 0} (client : Client Q B S) (store : IsStore client) (sets : StringSets N)
    (removed : N) where
  -- On a client that stores what it is given: when `remove_annotation_from_objects` succeeds, the
  -- objects of every kind in a namespace that is not in the set are listed as before.
  pub remove_annotation_elsewhere :
      (s s' : S)
      → remove_annotation_from_objects client sets removed s ≡ (ok tt, s')
      → (other : Kind) (ns : String) → contains ns (sets.list removed) ≡ false
      → client.list other ns s' ≡ client.list other ns s
  unfolding remove_annotation_from_objects
  remove_annotation_elsewhere s s' h other ns absent = elim (Bool-cases (sets.is_empty removed)) [
    | inl none ↦ ap (λ p. client.list other ns p.1) (sym (rw none at h))
    | inr some ↦
        strip_namespaces-Preserves client (λ x. client.list other ns x ≡ client.list other ns s)
          (sets.list removed)
          (strip_namespaces-IsUntouched client store other ns (client.list other ns s)
            (sets.list removed) absent)
          s s' (rw some at h) refl
  ]
