-- ===== src/Controller/Reconcile/Failure.antt =====
-- What a reconciliation does when a call fails.
use projectresourcequota.Prelude.{String, ◌≡◌, sym, ap, ◌∙◌, Bool-cases, inl, inr, if◌then◌else◌}
use projectresourcequota.Quantity.{Quantity}
use projectresourcequota.Api.{ProjectResourceQuota, is_deleting}
use projectresourcequota.Api.Result.{Error, ok, err}
use projectresourcequota.Webhook.Pod.{PodResources}
use projectresourcequota.Api.Names.{project_resource_quota_finalizer}
use projectresourcequota.Util.{remove_finalizer, without}
use projectresourcequota.Controller.Cluster.{Client, reads}
use projectresourcequota.Controller.Cluster.Laws.{bind_err}
use projectresourcequota.Controller.Strip.{StringSets, remove_annotation_from_objects}
use projectresourcequota.Controller.Usage.{reset_used, count_namespaces}
use projectresourcequota.Controller.Reconcile.{
  finish_deletion, removed_namespaces, with_status, update_usage, reconcile,
}

module _ {Q B S N : Type 0} ⦃q : Quantity Q⦄ (helper : PodResources Q B) (sets : StringSets N)
    (client : Client Q B S)
    (update_project-err : (prq : ProjectResourceQuota Q) (s s' : S) (e : Error Q)
      → client.update_project prq s ≡ (err e, s')
      → s' ≡ s)
    (update_status-err : (prq : ProjectResourceQuota Q) (s s' : S) (e : Error Q)
      → client.update_status prq s ≡ (err e, s')
      → s' ≡ s) where
  -- The set of namespaces that the reconciliation of a project strips.
  abbrev pub stripped_set : ProjectResourceQuota Q → N
  stripped_set prq =
      if is_deleting prq
      then sets.new_string prq.spec.namespaces
      else removed_namespaces helper sets client prq

  unfinished :
      (prq : ProjectResourceQuota Q) (s s' : S) (e : Error Q)
      → finish_deletion helper sets client prq s ≡ (err e, s')
      → s' ≡ (remove_annotation_from_objects client sets (sets.new_string prq.spec.namespaces) s).1
  unfolding finish_deletion remove_finalizer
  unfinished prq s s' e h =
      elim (bind_err
        (remove_annotation_from_objects client sets (sets.new_string prq.spec.namespaces)) _ e s s'
        h) [
          | inl failed ↦ sym (ap (λ p. p.1) failed)
          | inr (_, s1, cleared, later) ↦
              let released : ProjectResourceQuota Q = record prq {
                meta = record prq.meta {
                  finalizers = without project_resource_quota_finalizer prq.meta.finalizers;
                };
              } in
              update_project-err released s1 s' e later ∙ sym (ap (λ p. p.1) cleared)
        ]

  uncounted :
      (prq : ProjectResourceQuota Q) (s s' : S) (e : Error Q)
      → update_usage helper sets client prq s ≡ (err e, s')
      → s'
        ≡ (remove_annotation_from_objects client sets
            (removed_namespaces helper sets client prq)
            s).1
  unfolding update_usage
  uncounted prq s s' e h =
      elim (bind_err
        (remove_annotation_from_objects client sets (removed_namespaces helper sets client prq)) _ e
        s s' h) [
          | inl failed ↦ sym (ap (λ p. p.1) failed)
          | inr (_, s1, cleared, later) ↦
              elim (bind_err
                (reads (λ x.
                  count_namespaces helper client prq.spec.hard x prq.spec.namespaces
                    (reset_used prq.status.used)))
                _ e s1 s' later) [
                  | inl failed ↦ sym (ap (λ p. p.1) failed) ∙ sym (ap (λ p. p.1) cleared)
                  | inr (used, s2, counted, last) ↦
                      update_status-err (with_status helper sets client prq used) s2 s' e last
                      ∙ sym (ap (λ p. p.1) counted)
                      ∙ sym (ap (λ p. p.1) cleared)
                ]
        ]

  -- Where an update of the project, or of its status, that is answered with an error (a conflict, for
  -- one) has changed nothing: if the reconciliation of a project that was fetched returns an error,
  -- on whichever path, the cluster is in the state that the removal of annotations from the
  -- namespaces that left the project, or from all of its namespaces if it is being deleted, reached,
  -- and no later one.
  pub reconcile_failed :
      (name : String) (s s' : S) {prq : ProjectResourceQuota Q} (e : Error Q)
      → client.get name s ≡ ok prq
      → reconcile helper sets client name s ≡ (err e, s')
      → s' ≡ (remove_annotation_from_objects client sets (stripped_set prq) s).1
  unfolding reconcile
  reconcile_failed name s s' {prq} e got failed = elim (Bool-cases (is_deleting prq)) [
    | inl deleting ↦ rw deleting (unfinished prq s s' e (rw (got, deleting) at failed))
    | inr live ↦ rw live (uncounted prq s s' e (rw (got, live) at failed))
  ]
