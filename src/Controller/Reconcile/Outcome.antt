-- ===== src/Controller/Reconcile/Outcome.antt =====
-- What a reconciliation does on each of its paths.
use projectresourcequota.Prelude.{
  String, ◌≡◌, refl, ◌∙◌, true, false, not, ◌&&◌, ◌==◌, ◌++◌, All, contains, some,
}
use projectresourcequota.Quantity.{Quantity}
use projectresourcequota.Api.{Kind, ProjectResourceQuota, ResourceList, is_deleting}
use projectresourcequota.Api.Names.{project_resource_quota_finalizer}
use projectresourcequota.Api.Result.{ok}
use projectresourcequota.Util.{project_accessor, remove_finalizer, without}
use projectresourcequota.Util.Finalizers.{contains-without}
use projectresourcequota.Webhook.Pod.{PodResources}
use projectresourcequota.Controller.Cluster.{Client}
use projectresourcequota.Controller.Cluster.Laws.{IsStore, IsReliable}
use projectresourcequota.Controller.Strip.{StringSets}
use projectresourcequota.Controller.Strip.Namespaces.{IsVacated, remove_annotation_clears}
use projectresourcequota.Controller.Strip.Frame.{remove_annotation_elsewhere}
use projectresourcequota.Controller.Strip.Success.{remove_annotation-Succeeds}
use projectresourcequota.Controller.Usage.{reset_used}
use projectresourcequota.Controller.Usage.Counts.{count_rows, pod_rows}
use projectresourcequota.Controller.Usage.Rows.{RowCounted, usage_rows}
use projectresourcequota.Controller.Usage.Success.{count_namespaces-IsGiven}
use projectresourcequota.Controller.Reconcile.{
  finish_deletion, removed_namespaces, with_status, update_usage, reconcile,
}

module _ {Q B S N : Type 0} ⦃q : Quantity Q⦄ (helper : PodResources Q B) (sets : StringSets N)
    (client : Client Q B S) (store : IsStore client) where
  -- What the reconciliation of a project that is not being deleted does: there is a state of the
  -- cluster in which the objects of the namespaces that left the project are no longer annotated;
  -- all others are as before; the usage is what is counted there, and it is what the status
  -- records, with the namespaces.
  pub record IsRecorded (prq : ProjectResourceQuota Q) (s s' : S) : Type 0 where
    pub stripped : S
    pub used : ResourceList Q
    pub vacated :
        (ns : String)
        → contains ns prq.status.namespaces ≡ true
        → contains ns prq.spec.namespaces ≡ false
        → IsVacated client store ns stripped
    pub kept :
        (k : Kind) (ns : String)
        → (contains ns prq.status.namespaces && not (contains ns prq.spec.namespaces)) ≡ false
        → client.list k ns stripped ≡ client.list k ns s
    pub counted :
        All
          (RowCounted helper client prq.spec.hard stripped used prq.spec.namespaces)
          (count_rows ++ pod_rows helper)
    pub recorded :
        client.update_status
          (record prq { status = record { used = some used; namespaces = prq.spec.namespaces } })
          stripped
        ≡ (ok tt, s')

  -- What the reconciliation of a project that is being deleted does: when the finalizer goes, no
  -- object in the project's namespaces is annotated any more, and those elsewhere are as before.
  pub record IsFinished (prq : ProjectResourceQuota Q) (s s' : S) : Type 0 where
    pub stripped : S
    pub released : ProjectResourceQuota Q
    pub vacated :
        (ns : String) → contains ns prq.spec.namespaces ≡ true → IsVacated client store ns stripped
    pub kept :
        (k : Kind) (ns : String)
        → contains ns prq.spec.namespaces ≡ false
        → client.list k ns stripped ≡ client.list k ns s
    pub only_finalizers :
        released ≡ record prq { meta = record prq.meta { finalizers = released.meta.finalizers } }
    pub finalizers :
        (f : String)
        → contains f released.meta.finalizers
          ≡ (not ("jenting.io/finalizer" == f) && contains f prq.meta.finalizers)
    pub updated : client.update_project released stripped ≡ (ok tt, s')

  removed_lem :
      (prq : ProjectResourceQuota Q) (ns : String)
      → contains ns prq.status.namespaces ≡ true
      → contains ns prq.spec.namespaces ≡ false
      → contains ns (sets.list (removed_namespaces helper sets client prq)) ≡ true
  unfolding removed_namespaces
  removed_lem prq ns old new = rw (
    sets.contains-difference ns (sets.new_string prq.status.namespaces)
        (sets.new_string prq.spec.namespaces),
    sets.contains-new_string ns prq.status.namespaces,
    sets.contains-new_string ns prq.spec.namespaces,
    old,
    new,
  )

  kept_lem :
      (prq : ProjectResourceQuota Q) (ns : String)
      → (contains ns prq.status.namespaces && not (contains ns prq.spec.namespaces)) ≡ false
      → contains ns (sets.list (removed_namespaces helper sets client prq)) ≡ false
  unfolding removed_namespaces
  kept_lem prq ns still =
      rw
        (
          sets.contains-difference ns (sets.new_string prq.status.namespaces)
              (sets.new_string prq.spec.namespaces),
          sets.contains-new_string ns prq.status.namespaces,
          sets.contains-new_string ns prq.spec.namespaces,
        )
        still

  module _ (reliable : IsReliable client) where
    update_usage-IsRecorded :
        (prq : ProjectResourceQuota Q) (s : S)
        → (s' : S) × (update_usage helper sets client prq s ≡ (ok tt, s')) × IsRecorded prq s s'
    unfolding update_usage
    update_usage-IsRecorded prq s =
        let removed = removed_namespaces helper sets client prq in
        let (s1, cleared) = remove_annotation-Succeeds client reliable sets removed s in
        let (used, counted) =
          count_namespaces-IsGiven helper client reliable prq.spec.hard s1 prq.spec.namespaces
            (reset_used prq.status.used) in
        let (s', recorded) =
          reliable.update_status-ok (with_status helper sets client prq used) s1 in
        (
          s',
          rw (cleared, counted, recorded),
          record {
            stripped = s1;
            used = used;
            vacated = λ ns old new.
                remove_annotation_clears client store sets removed s s1 cleared ns
                  (removed_lem prq ns old new);
            kept = λ k ns still.
                remove_annotation_elsewhere client store sets removed s s1 cleared k ns
                  (kept_lem prq ns still);
            counted =
                usage_rows helper client prq.spec.hard s1 prq.spec.namespaces prq.status.used used
                  counted;
            recorded = recorded;
          },
        )

    finish_deletion-IsFinished :
        (prq : ProjectResourceQuota Q) (s : S)
        → (s' : S) × (finish_deletion helper sets client prq s ≡ (ok tt, s')) × IsFinished prq s s'
    unfolding finish_deletion remove_finalizer
    finish_deletion-IsFinished prq s =
        let removed = sets.new_string prq.spec.namespaces in
        let (s1, cleared) = remove_annotation-Succeeds client reliable sets removed s in
        let released : ProjectResourceQuota Q = record prq {
          meta = record prq.meta {
            finalizers = without project_resource_quota_finalizer prq.meta.finalizers;
          };
        } in
        let (s', updated) = reliable.update_project-ok released s1 in
        (
          s',
          rw (cleared, updated),
          record {
            stripped = s1;
            released = released;
            vacated = λ ns listed.
                remove_annotation_clears client store sets removed s s1 cleared ns
                  (sets.contains-new_string ns prq.spec.namespaces ∙ listed);
            kept = λ k ns absent.
                remove_annotation_elsewhere client store sets removed s s1 cleared k ns
                  (sets.contains-new_string ns prq.spec.namespaces ∙ absent);
            only_finalizers = refl;
            finalizers =
                λ f. contains-without f project_resource_quota_finalizer prq.meta.finalizers;
            updated = updated;
          },
        )

    -- With a client that stores what it is given and does not fail, the reconciliation of a project
    -- that is not being deleted succeeds. On the way there is a state of the cluster in which no
    -- object in a namespace that left the project is annotated, and the objects in all other
    -- namespaces, those that are still in the project among them, are listed as at the start. The
    -- status is then updated, in that state, with the namespaces of the specification and a usage
    -- that gives each of the twenty resources what it counts in that state.
    pub reconcile-IsRecorded :
        (name : String) (s : S) {prq : ProjectResourceQuota Q}
        → client.get name s ≡ ok prq
        → is_deleting prq ≡ false
        → (s' : S) × (reconcile helper sets client name s ≡ (ok tt, s')) × IsRecorded prq s s'
    unfolding reconcile
    reconcile-IsRecorded name s {prq} got live = rw (got, live) (update_usage-IsRecorded prq s)

    -- With such a client, the reconciliation of a project that is being deleted succeeds. On the
    -- way there is a state of the cluster in which no object in its namespaces is annotated, and
    -- the objects in all other namespaces are listed as at the start. The project is then updated,
    -- in that state, without its finalizer, with all others, and otherwise as it was.
    pub reconcile-IsFinished :
        (name : String) (s : S) {prq : ProjectResourceQuota Q}
        → client.get name s ≡ ok prq
        → is_deleting prq ≡ true
        → (s' : S) × (reconcile helper sets client name s ≡ (ok tt, s')) × IsFinished prq s s'
    unfolding reconcile
    reconcile-IsFinished name s {prq} got deleting =
        rw (got, deleting) (finish_deletion-IsFinished prq s)
