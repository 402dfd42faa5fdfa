-- ===== src/Quota/Recounted.antt =====
-- What a reconciliation that succeeds leaves of a project: its usage is the tally of its objects.
use projectresourcequota.Prelude.{String, ◌≡◌, refl, ◌∙◌, Bool, true, false, ◌&&◌, contains}
use projectresourcequota.Quantity.{Quantity}
use projectresourcequota.Api.{Kind, ProjectResourceQuota, ResourceList, is_deleting}
use projectresourcequota.Api.Result.{ok}
use projectresourcequota.Webhook.Pod.{PodResources}
use projectresourcequota.Controller.Cluster.{Client}
use projectresourcequota.Controller.Cluster.Laws.{IsStore}
use projectresourcequota.Controller.Strip.{StringSets}
use projectresourcequota.Controller.Strip.Frame.{remove_annotation_elsewhere}
use projectresourcequota.Controller.Usage.Rows.{RowCounted, usage_rows}
use projectresourcequota.Controller.Reconcile.{removed_namespaces, with_status, reconcile}
use projectresourcequota.Controller.Reconcile.Settled.{IsStatusStore, update_usage_parts}
use projectresourcequota.Prelude.{All, All-map, ◌++◌}
use projectresourcequota.Controller.Usage.Counts.{count_rows, pod_rows}
use projectresourcequota.Quota.Sums.{row_total-same}

never : (b : Bool) → (b && false) ≡ false
never true = refl
never false = refl

module _ {Q B S N : Type 0} ⦃q : Quantity Q⦄ (helper : PodResources Q B) (sets : StringSets N)
    (client : Client Q B S) (store : IsStore client) (status : IsStatusStore client) where
  -- What a reconciliation that succeeds leaves of a project that is not being deleted.
  pub record IsRecounted (prq : ProjectResourceQuota Q) (s s' : S) : Type 0 where
    pub used : ResourceList Q
    pub got : client.get prq.meta.name s' ≡ ok (with_status helper sets client prq used)
    pub lists :
        (k : Kind) (ns : String)
        → contains ns prq.spec.namespaces ≡ true
        → client.list k ns s' ≡ client.list k ns s
    pub counted :
        All
          (RowCounted helper client prq.spec.hard s used prq.spec.namespaces)
          (count_rows ++ pod_rows helper)

  pub recounted :
      (prq : ProjectResourceQuota Q) (s s' : S)
      → client.get prq.meta.name s ≡ ok prq
      → is_deleting prq ≡ false
      → reconcile helper sets client prq.meta.name s ≡ (ok tt, s')
      → IsRecounted prq s s'
  unfolding removed_namespaces
  recounted prq s s' got live done =
      let (s1, used, cleared, counted, recorded) =
        update_usage_parts helper sets client prq s s' got live done in
      let kept = status.update_status-list (with_status helper sets client prq used) s1 s' in
      let listed : (k : Kind) (ns : String)
          → contains ns prq.spec.namespaces ≡ true
          → client.list k ns s1 ≡ client.list k ns s =
        λ k ns inside.
          remove_annotation_elsewhere client store sets (removed_namespaces helper sets client prq)
            s s1 cleared k ns
            (rw
              (
                sets.contains-difference ns (sets.new_string prq.status.namespaces)
                    (sets.new_string prq.spec.namespaces),
                sets.contains-new_string ns prq.spec.namespaces,
                inside,
              )
              (never (contains ns (sets.list (sets.new_string prq.status.namespaces))))) in
      record {
        used = used;
        got = status.update_status-get (with_status helper sets client prq used) s1 s' recorded;
        lists = λ k ns inside. kept k ns recorded ∙ listed k ns inside;
        counted =
            All-map (RowCounted helper client prq.spec.hard s1 used prq.spec.namespaces)
              (RowCounted helper client prq.spec.hard s used prq.spec.namespaces)
              (count_rows ++ pod_rows helper)
              (λ row h.
                h
                ∙ row_total-same helper client prq.spec.hard row s s1 prq.spec.namespaces
                    (listed row.kind))
              (usage_rows helper client prq.spec.hard s1 prq.spec.namespaces prq.status.used used
                counted);
      }
