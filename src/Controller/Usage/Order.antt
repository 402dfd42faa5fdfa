-- ===== src/Controller/Usage/Order.antt =====
-- The usage that the controller calculates does not depend on the order in which a `range` visits
-- a map.
use projectresourcequota.Prelude.{
  String, ◌≡◌, refl, sym, ap, subst, fun_ext, ◌∙◌, Option, List, [], ◌∷◌, ◌++◌, All, All-both,
  if◌then◌else◌,
}
use projectresourcequota.Prelude.Int.{pos, ◌+ℤ◌}
use projectresourcequota.Dict.{has}
use projectresourcequota.Dict.Order.{SameMap, has-same}
use projectresourcequota.Quantity.{Quantity}
use projectresourcequota.Api.{Pod, ResourceList}
use projectresourcequota.Api.Names.{ResourceName}
use projectresourcequota.Api.Result.{ok}
use projectresourcequota.Webhook.Counting.{at, or_zero}
use projectresourcequota.Webhook.Pod.{PodResources}
use projectresourcequota.Controller.Cluster.{Client}
use projectresourcequota.Controller.Usage.{count_namespaces, reset_used}
use projectresourcequota.Controller.Usage.Sums.{sum_where, amount_at}
use projectresourcequota.Controller.Usage.Tables.{items_of}
use projectresourcequota.Controller.Usage.Counts.{
  Row, count_rows, pod_rows, pod_rows_of, gate, row_charge, row_total, requested, limited_to,
}
use projectresourcequota.Controller.Usage.Rows.{RowCounted, usage_rows}

module _ {Q B S : Type 0} ⦃q : Quantity Q⦄ (helper helper' : PodResources Q B)
    (client : Client Q B S) (hard hard' : ResourceList Q) (s : S) (same_hard : SameMap hard hard')
    (same_requests : (pod : Pod B) → SameMap (helper.pod_requests pod) (helper'.pod_requests pod))
    (same_limits : (pod : Pod B) → SameMap (helper.pod_limits pod) (helper'.pod_limits pod)) where
  requested-same : (m : ResourceName) → requested helper m ≡ requested helper' m
  unfolding at
  requested-same m = fun_ext (λ pod. ap (λ o. q.amount (or_zero o)) (same_requests pod m))

  limited_to-same : (m : ResourceName) → limited_to helper m ≡ limited_to helper' m
  unfolding at
  limited_to-same m = fun_ext (λ pod. ap (λ o. q.amount (or_zero o)) (same_limits pod m))

  pod_rows-same : pod_rows helper ≡ pod_rows helper'
  pod_rows-same =
      ap (λ f. pod_rows_of f (limited_to helper)) (fun_ext requested-same)
      ∙ ap (pod_rows_of (requested helper')) (fun_ext limited_to-same)

  row_charge-same :
      (row : Row B) (ns : String)
      → row_charge helper client hard s row ns ≡ row_charge helper' client hard' s row ns
  row_charge-same row ns =
      ap
        (λ b.
          if b
          then (if has row.name hard
              then sum_where row.counts row.measure (items_of (client.list row.kind ns s))
              else pos 0)
          else pos 0)
        (has-same hard hard' same_hard (gate row.kind))
      ∙ ap
          (λ b.
            if has (gate row.kind) hard'
            then (if b
                then sum_where row.counts row.measure (items_of (client.list row.kind ns s))
                else pos 0)
            else pos 0)
          (has-same hard hard' same_hard row.name)

  row_total-same :
      (row : Row B) (nss : List String)
      → row_total helper client hard s row nss ≡ row_total helper' client hard' s row nss
  row_total-same row [] = refl
  row_total-same row (ns ∷ rest) =
      ap (λ a. a +ℤ row_total helper client hard s row rest) (row_charge-same row ns)
      ∙ ap (λ a. row_charge helper' client hard' s row ns +ℤ a) (row_total-same row rest)

  -- Two calculations of the usage in the same state of the cluster, from whatever old statuses,
  -- that differ in the order of the project's limits and of what pods request and are limited to,
  -- give the same amount of each of the twenty resources.
  pub usage_order :
      (nss : List String) (old old' : Option (ResourceList Q)) (used used' : ResourceList Q)
      → count_namespaces helper client hard s nss (reset_used old) ≡ ok used
      → count_namespaces helper' client hard' s nss (reset_used old') ≡ ok used'
      → All
          (λ row. amount_at used row.name ≡ amount_at used' row.name)
          (count_rows ++ pod_rows helper)
  usage_order nss old old' used used' counted counted' =
      All-both (RowCounted helper client hard s used nss)
        (RowCounted helper' client hard' s used' nss)
        (λ row. amount_at used row.name ≡ amount_at used' row.name)
        (λ row h h'. h ∙ row_total-same row nss ∙ sym h') (count_rows ++ pod_rows helper)
        (usage_rows helper client hard s nss old used counted)
        (subst (λ rows. All (RowCounted helper' client hard' s used' nss) (count_rows ++ rows))
          (sym pod_rows-same) (usage_rows helper' client hard' s nss old' used' counted'))
