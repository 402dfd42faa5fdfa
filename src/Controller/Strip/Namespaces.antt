-- ===== src/Controller/Strip/Namespaces.antt =====
-- `remove_annotation_from_objects` over all kinds and namespaces: what it clears, what it leaves
-- alone, and that it succeeds if the client does.
use projectresourcequota.Prelude.{
  String, ◌≡◌, refl, ap, subst, inl, inr, true, ◌==◌, eq_iff, List, [], ◌∷◌, All, contains, arith,
  Bool-cases,
}
use projectresourcequota.Api.{Kind}
use projectresourcequota.Api.Result.{ok}
use projectresourcequota.Controller.Cluster.{Client, Action, ◌>>◌}
use projectresourcequota.Controller.Cluster.Laws.{
  IsStore, Preserves, Ensures, then-Preserves, then-Ensures, later-Ensures,
}
use projectresourcequota.Controller.Strip.{
  StringSets, strip_kind, strip_namespace, strip_namespaces, remove_annotation_from_objects,
}
use projectresourcequota.Controller.Strip.Cleared.{
  IsCleared, strip_kind-Preserves, strip_kind-Ensures,
}

abbrev later_kinds : List Kind
later_kinds =
    Kind.persistent_volume_claim ∷ Kind.pod ∷ Kind.replication_controller ∷ Kind.resource_quota
    ∷ Kind.secret ∷ Kind.service ∷ []

every_kind : (P : Kind → Type 0) → All P (Kind.config_map ∷ later_kinds) → (k : Kind) → P k
every_kind P h Kind.config_map = h.0
every_kind P h Kind.persistent_volume_claim = h.1.0
every_kind P h Kind.pod = h.1.1.0
every_kind P h Kind.replication_controller = h.1.1.1.0
every_kind P h Kind.resource_quota = h.1.1.1.1.0
every_kind P h Kind.secret = h.1.1.1.1.1.0
every_kind P h Kind.service = h.1.1.1.1.1.1.0

module _ {Q B S : Type 0} (client : Client Q B S) where
  -- `strip_namespace` as a chain over a list of kinds.
  strip_kinds : String → Kind → List Kind → Action Q S (Unit {0})
  strip_kinds ns k [] = strip_kind client ns k
  strip_kinds ns k (next ∷ later) = strip_kind client ns k >> strip_kinds ns next later

  strip_namespace_lem :
      (ns : String) → strip_namespace client ns ≡ strip_kinds ns Kind.config_map later_kinds
  unfolding strip_namespace strip_kinds
  strip_namespace_lem ns = refl

  module _ (R : S → Type 0) where
    strip_kinds-Preserves :
        (ns : String)
        → ((k : Kind) → Preserves R (strip_kind client ns k))
        → (k : Kind) (later : List Kind) → Preserves R (strip_kinds ns k later)
    unfolding strip_kinds
    strip_kinds-Preserves ns each k [] s s' h r = each k s s' h r
    strip_kinds-Preserves ns each k (next ∷ later) s s' h r =
        then-Preserves R (strip_kind client ns k) (strip_kinds ns next later) (each k)
          (strip_kinds-Preserves ns each next later) s s' h r

    pub strip_namespace-Preserves :
        (ns : String)
        → ((k : Kind) → Preserves R (strip_kind client ns k))
        → Preserves R (strip_namespace client ns)
    strip_namespace-Preserves ns each =
        rw (strip_namespace_lem ns) (strip_kinds-Preserves ns each Kind.config_map later_kinds)

    pub strip_namespaces-Preserves :
        (nss : List String)
        → All (λ ns. Preserves R (strip_namespace client ns)) nss
        → Preserves R (strip_namespaces client nss)
    unfolding strip_namespaces
    strip_namespaces-Preserves [] each s s' h r = subst R (ap (λ p. p.1) h) r
    strip_namespaces-Preserves (ns ∷ rest) each s s' h r =
        then-Preserves R (strip_namespace client ns) (strip_namespaces client rest) each.0
          (strip_namespaces-Preserves rest each.1) s s' h r

module _ {Q B S : Type 0} (client : Client Q B S) (store : IsStore client) where
  -- No object of any kind in a namespace is annotated.
  abbrev pub IsVacated : String → S → Type 0
  IsVacated ns s = (k : Kind) → IsCleared client store k ns s

  strip_kinds-Ensures :
      (ns : String) (k : Kind) (later : List Kind)
      → Ensures
          (λ s. All (λ x. IsCleared client store x ns s) (k ∷ later))
          (strip_kinds client ns k later)
  unfolding strip_kinds
  strip_kinds-Ensures ns k [] s s' h = (strip_kind-Ensures client store k ns s s' h, tt)
  strip_kinds-Ensures ns k (next ∷ later) s s' h = (
    then-Ensures (IsCleared client store k ns) (strip_kind client ns k)
        (strip_kinds client ns next later) (strip_kind-Ensures client store k ns)
        (strip_kinds-Preserves client (IsCleared client store k ns) ns
          (λ x. strip_kind-Preserves client store ns x k ns) next later)
        s s' h,
    later-Ensures (λ s. All (λ x. IsCleared client store x ns s) (next ∷ later))
        (strip_kind client ns k) (strip_kinds client ns next later)
        (strip_kinds-Ensures ns next later) s s' h,
  )

  strip_namespace-Ensures : (ns : String) → Ensures (IsVacated ns) (strip_namespace client ns)
  strip_namespace-Ensures ns s s' h =
      every_kind (λ k. IsCleared client store k ns s')
        (strip_kinds-Ensures ns Kind.config_map later_kinds s s'
          (rw (strip_namespace_lem client ns) at h))

  IsVacated-Preserves :
      (ns : String) (nss : List String) → Preserves (IsVacated ns) (strip_namespaces client nss)
  IsVacated-Preserves ns nss = strip_namespaces-Preserves client (IsVacated ns) nss (each_of nss)
    where
      each_of : (l : List String) → All (λ n. Preserves (IsVacated ns) (strip_namespace client n)) l
      each_of [] = tt
      each_of (n ∷ rest) = (
        strip_namespace-Preserves client (IsVacated ns) n
            (λ x s s' h r k. strip_kind-Preserves client store n x k ns s s' h (r k)),
        each_of rest,
      )

  strip_namespaces-Ensures :
      (nss : List String) (ns : String)
      → contains ns nss ≡ true
      → Ensures (IsVacated ns) (strip_namespaces client nss)
  unfolding strip_namespaces
  strip_namespaces-Ensures [] ns listed s s' h = absurd (cc)
  strip_namespaces-Ensures (n ∷ rest) ns listed s s' h = elim (Bool-cases (n == ns)) [
    | inl here ↦
        then-Ensures (IsVacated ns) (strip_namespace client n) (strip_namespaces client rest)
          (subst (λ x. Ensures (IsVacated x) (strip_namespace client n)) ((eq_iff n ns).0 here)
            (strip_namespace-Ensures n))
          (IsVacated-Preserves ns rest) s s' h
    | inr there ↦
        later-Ensures (IsVacated ns) (strip_namespace client n) (strip_namespaces client rest)
          (strip_namespaces-Ensures rest ns (ground arith)) s s' h
  ]

  -- On a client that stores what it is given: when `remove_annotation_from_objects` succeeds, no
  -- object of any of the seven kinds in any of the namespaces of the set is annotated afterwards,
  -- whichever project it named.
  pub remove_annotation_clears :
      {N : Type 0} (sets : StringSets N) (removed : N) (s s' : S)
      → remove_annotation_from_objects client sets removed s ≡ (ok tt, s')
      → (ns : String) → contains ns (sets.list removed) ≡ true
      → IsVacated ns s'
  unfolding remove_annotation_from_objects
  remove_annotation_clears sets removed s s' h ns listed =
      elim (Bool-cases (sets.is_empty removed)) [
        | inl none ↦ let listed' = rw (sets.list_empty removed none) at listed in absurd (cc)
        | inr some ↦ strip_namespaces-Ensures (sets.list removed) ns listed s s' (rw some at h)
      ]
