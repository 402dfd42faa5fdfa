-- ===== src/Controller/Reconcile/Enforced.antt =====
-- What the validators decide on the status that a reconciliation recorded, in terms of the objects
-- in the cluster.
use projectresourcequota.Prelude.{String, ◌≡◌, subst, ◌↔◌, some, All, All-map, All-front}
use projectresourcequota.Prelude.Int.{◌<ℤ◌}
use projectresourcequota.Quantity.{Quantity}
use projectresourcequota.Api.{Object, ProjectResourceQuota, ResourceList}
use projectresourcequota.Api.Result.{ok}
use projectresourcequota.Api.Client.{Reader}
use projectresourcequota.Webhook.Counting.{annotated_project, count_create, check_count}
use projectresourcequota.Webhook.Counting.Limit.{hard_amount, check_count_iff}
use projectresourcequota.Webhook.Counting.Verdicts.{count_create-ok}
use projectresourcequota.Webhook.Pod.{PodResources}
use projectresourcequota.Controller.Cluster.{Client}
use projectresourcequota.Controller.Strip.{StringSets}
use projectresourcequota.Controller.Usage.{count_namespaces, reset_used}
use projectresourcequota.Controller.Usage.Counts.{Row, count_rows, pod_rows, row_total}
use projectresourcequota.Controller.Usage.Rows.{RowCounted, usage_rows}
use projectresourcequota.Controller.Reconcile.{with_status}

module _ {Q B S N : Type 0} ⦃q : Quantity Q⦄ (helper : PodResources Q B) (sets : StringSets N)
    (client : Client Q B S) (prq : ProjectResourceQuota Q) (s : S) {used : ResourceList Q}
    (counted : count_namespaces helper client prq.spec.hard s prq.spec.namespaces
        (reset_used prq.status.used)
      ≡ ok used) where
  -- The check of the count of a row's resource accepts one more exactly when what the row counts
  -- in the cluster is below the limit.
  abbrev pub IsEnforced : {B' : Type 0} → Reader Q → Object B' → Row B → Type 0
  IsEnforced reader obj row = (count_create row.name reader obj ≡ ok tt) ↔ (
      row_total helper client prq.spec.hard s row prq.spec.namespaces <ℤ hard_amount row.name prq)

  module _ {B' : Type 0} (reader : Reader Q) (obj : Object B') {prq_name : String}
      (annotated : annotated_project obj ≡ some prq_name)
      (got : reader.get prq_name ≡ ok (with_status helper sets client prq used)) where
    IsEnforced-row :
        (row : Row B)
        → RowCounted helper client prq.spec.hard s used prq.spec.namespaces row
        → IsEnforced reader obj row
    IsEnforced-row row total = rw (count_create-ok reader obj annotated row.name got) (
        subst
          (λ x.
            (check_count row.name (with_status helper sets client prq used) ≡ ok tt)
            ↔ (x <ℤ hard_amount row.name prq))
          total (check_count_iff row.name (with_status helper sets client prq used)))

    -- For a project whose status was calculated from the cluster, and an object that is annotated
    -- with it: the check of the count of each of the eight kinds of objects other than pods accepts
    -- one more exactly when the number of objects that are counted for it in the namespaces of the
    -- project is below the limit.
    pub create_by_cluster : All (IsEnforced reader obj) count_rows
    create_by_cluster =
        All-map (RowCounted helper client prq.spec.hard s used prq.spec.namespaces)
          (IsEnforced reader obj) count_rows IsEnforced-row
          (All-front (RowCounted helper client prq.spec.hard s used prq.spec.namespaces) count_rows
            (pod_rows helper)
            (usage_rows helper client prq.spec.hard s prq.spec.namespaces prq.status.used used
              counted))
