-- ===== src/Controller/Reconcile/Settled.antt =====
-- A reconciliation that follows a successful one finds nothing to do.
use projectresourcequota.Prelude.{
  String, ◌≡◌, refl, sym, ap, ◌∙◌, Bool, true, false, not, ◌&&◌, List, [], ◌∷◌, contains, eq_refl,
  arith, some, if◌then◌else◌,
}
use projectresourcequota.Quantity.{Quantity}
use projectresourcequota.Api.{Kind, ProjectResourceQuota, ResourceList, is_deleting}
use projectresourcequota.Api.Result.{Result, ok}
use projectresourcequota.Webhook.Pod.{PodResources}
use projectresourcequota.Controller.Cluster.{Client, pure, reads, ◌>>=◌}
use projectresourcequota.Controller.Cluster.Laws.{bind_ok}
use projectresourcequota.Controller.Strip.{
  StringSets, strip_namespaces, remove_annotation_from_objects,
}
use projectresourcequota.Controller.Usage.{reset_used, count_namespaces}
use projectresourcequota.Controller.Usage.Sums.{reset_used_lem}
use projectresourcequota.Controller.Usage.Extent.{count_namespaces-same}
use projectresourcequota.Controller.Reconcile.{
  removed_namespaces, with_status, update_usage, reconcile,
}

-- A successful update of the status of a project stores it, and changes no object.
pub record IsStatusStore {Q B S : Type 0} (client : Client Q B S) : Type 0 where
  pub update_status-get :
      (prq : ProjectResourceQuota Q) (s s' : S)
      → client.update_status prq s ≡ (ok tt, s')
      → client.get prq.meta.name s' ≡ ok prq
  pub update_status-list :
      (prq : ProjectResourceQuota Q) (s s' : S) (k : Kind) (ns : String)
      → client.update_status prq s ≡ (ok tt, s')
      → client.list k ns s' ≡ client.list k ns s

none_listed : (xs : List String) → ((x : String) → contains x xs ≡ false) → xs ≡ []
none_listed [] h = refl
none_listed (x ∷ xs) h = absurd (ground (arith, h x, eq_refl x))

never_both : (b : Bool) → (b && not b) ≡ false
never_both true = refl
never_both false = refl

module _ {Q B S N : Type 0} ⦃q : Quantity Q⦄ (helper : PodResources Q B) (sets : StringSets N)
    (client : Client Q B S) where
  -- If the status has the namespaces of the specification, nothing is removed.
  remove-settled :
      (prq : ProjectResourceQuota Q) (s : S)
      → prq.status.namespaces ≡ prq.spec.namespaces
      → remove_annotation_from_objects client sets (removed_namespaces helper sets client prq) s
        ≡ (ok tt, s)
  unfolding remove_annotation_from_objects removed_namespaces strip_namespaces
  remove-settled prq s same = by_test (sets.is_empty removed)
    where
      removed : N
      removed =
          sets.difference (sets.new_string prq.status.namespaces)
            (sets.new_string prq.spec.namespaces)

      empty : sets.list removed ≡ []
      empty = none_listed (sets.list removed) λ x.
          sets.contains-difference x (sets.new_string prq.status.namespaces)
            (sets.new_string prq.spec.namespaces)
          ∙ ap
              (λ l.
                contains x (sets.list (sets.new_string l))
                && not (contains x (sets.list (sets.new_string prq.spec.namespaces))))
              same
          ∙ never_both (contains x (sets.list (sets.new_string prq.spec.namespaces)))

      by_test :
          (b : Bool)
          → ◌≡◌ {A = Result Q (Unit {0}) × S}
              ((if b then pure tt else strip_namespaces client (sets.list removed)) s)
              (ok tt, s)
      by_test true = refl
      by_test false = rw empty

  -- The three parts of a calculation of the usage that succeeded.
  pub update_usage_parts :
      (prq : ProjectResourceQuota Q) (s s' : S)
      → client.get prq.meta.name s ≡ ok prq
      → is_deleting prq ≡ false
      → reconcile helper sets client prq.meta.name s ≡ (ok tt, s')
      → (s1 : S) × (used : ResourceList Q) × (remove_annotation_from_objects client sets
            (removed_namespaces helper sets client prq)
            s
          ≡ (ok tt, s1))
        × (count_namespaces helper client prq.spec.hard s1 prq.spec.namespaces
              (reset_used prq.status.used)
            ≡ ok used)
        × (client.update_status (with_status helper sets client prq used) s1 ≡ (ok tt, s'))
  unfolding reconcile update_usage
  update_usage_parts prq s s' got live done =
      let (_, s1, cleared, later) =
        bind_ok
          (remove_annotation_from_objects client sets (removed_namespaces helper sets client prq))
          (λ _.
            reads (λ x.
              count_namespaces helper client prq.spec.hard x prq.spec.namespaces
                (reset_used prq.status.used))
            >>= λ used. client.update_status (with_status helper sets client prq used))
          tt s s' (rw (got, live) at done) in
      let (used, s2, counted, recorded) =
        bind_ok
          (reads (λ x.
            count_namespaces helper client prq.spec.hard x prq.spec.namespaces
              (reset_used prq.status.used)))
          (λ used. client.update_status (with_status helper sets client prq used)) tt s1 s' later in
      (
        s1,
        used,
        cleared,
        ap (λ p. p.0) counted,
        ap (client.update_status (with_status helper sets client prq used)) (ap (λ p. p.1) counted)
            ∙ recorded,
      )

  module _ (store : IsStatusStore client) where
    recount :
        (prq : ProjectResourceQuota Q) (used : ResourceList Q) (s s' : S)
        → count_namespaces helper client prq.spec.hard s prq.spec.namespaces
            (reset_used prq.status.used)
          ≡ ok used
        → client.update_status (with_status helper sets client prq used) s ≡ (ok tt, s')
        → count_namespaces helper client prq.spec.hard s' prq.spec.namespaces
            (reset_used (some used))
          ≡ ok used
    recount prq used s s' counted recorded =
        ap (count_namespaces helper client prq.spec.hard s' prq.spec.namespaces)
          (reset_used_lem (some used) ∙ sym (reset_used_lem prq.status.used))
        ∙ count_namespaces-same helper client prq.spec.hard s' s
            (λ k ns.
              store.update_status-list (with_status helper sets client prq used) s s' k ns recorded)
            prq.spec.namespaces (reset_used prq.status.used)
        ∙ counted

    update_again :
        (prq : ProjectResourceQuota Q) (used : ResourceList Q) (s s' : S)
        → count_namespaces helper client prq.spec.hard s prq.spec.namespaces
            (reset_used prq.status.used)
          ≡ ok used
        → client.update_status (with_status helper sets client prq used) s ≡ (ok tt, s')
        → update_usage helper sets client (with_status helper sets client prq used) s'
          ≡ client.update_status (with_status helper sets client prq used) s'
    unfolding update_usage
    update_again prq used s s' counted recorded = rw (
      remove-settled (with_status helper sets client prq used) s' refl,
      recount prq used s s' counted recorded,
    )

    -- With a client that stores a status that it is given: after the reconciliation of a project
    -- that is not being deleted succeeded, the project that is fetched is the old one with a new
    -- status, and reconciling it again removes no annotation and writes just that project again.
    pub reconcile_settled :
        (prq : ProjectResourceQuota Q) (s s' : S)
        → client.get prq.meta.name s ≡ ok prq
        → is_deleting prq ≡ false
        → reconcile helper sets client prq.meta.name s ≡ (ok tt, s')
        → (used : ResourceList Q) × (client.get prq.meta.name s'
            ≡ ok (with_status helper sets client prq used))
          × (reconcile helper sets client prq.meta.name s'
              ≡ client.update_status (with_status helper sets client prq used) s')
    unfolding reconcile
    reconcile_settled prq s s' got live done =
        let (s1, used, _, counted, recorded) = update_usage_parts prq s s' got live done in
        let got' =
          store.update_status-get (with_status helper sets client prq used) s1 s' recorded in
        (used, got', rw (got', live) (update_again prq used s1 s' counted recorded))
