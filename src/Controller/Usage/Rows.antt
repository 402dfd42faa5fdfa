-- ===== src/Controller/Usage/Rows.antt =====
-- The calculated usage gives each of the twenty resources what it counts.
use projectresourcequota.Prelude.{
  String, ◌≡◌, refl, ap, ◌∙◌, Bool, true, false, Option, List, [], ◌∷◌, ◌++◌, All, All-map,
  All-append, if◌then◌else◌, arith, fun_ext, subst,
}
use projectresourcequota.Prelude.Int.{ℤ, pos, ◌+ℤ◌, +ℤ-zero, zero-+ℤ}
use projectresourcequota.Dict.{IsMap}
use projectresourcequota.Quantity.{Quantity}
use projectresourcequota.Api.{Pod, ResourceList}
use projectresourcequota.Api.Names.{ResourceName}
use projectresourcequota.Api.Result.{ok}
use projectresourcequota.Util.{is_annotation_exists}
use projectresourcequota.Webhook.Counting.{at}
use projectresourcequota.Webhook.Pod.{PodResources}
use projectresourcequota.Controller.Cluster.{Client}
use projectresourcequota.Controller.Usage.{
  is_pod_terminated, is_counted_pod, pod_totals, pod_charges, count_namespaces, reset_used,
}
use projectresourcequota.Controller.Usage.Sums.{
  sum_where, amount_at, amount_at-nil, amount_at-pod_totals, reset_used_lem,
}
use projectresourcequota.Controller.Usage.Tables.{
  Adds, namespace_charge, total_charge, count_namespaces-Adds,
}
use projectresourcequota.Controller.Usage.Counts.{
  is_live_pod, Row, count_rows, pod_rows, row_charge, row_total,
}

if_zero : (b : Bool) → (if b then pos 0 else pos 0) ≡ pos 0
if_zero true = refl
if_zero false = refl

if_again :
    (a : Bool) (x : ℤ) → (if a then (if a then x else pos 0) else pos 0) ≡ (if a then x else pos 0)
if_again true x = refl
if_again false x = refl

ruleset row_laws = (if_zero, zero-+ℤ, +ℤ-zero, if_again)

is_live_pod_lem : {B : Type 0} → is_counted_pod {B = B} ≡ is_live_pod
unfolding is_pod_terminated is_annotation_exists
is_live_pod_lem = fun_ext (λ pod. ground arith)

module _ {Q B S : Type 0} ⦃q : Quantity Q⦄ (helper : PodResources Q B) (client : Client Q B S)
    (hard : ResourceList Q) (s : S) where
  RowHolds : String → Row B → Type 0
  RowHolds ns row =
      namespace_charge helper client hard s row.name ns ≡ row_charge helper client hard s row ns

  count_rows_hold : (ns : String) → All (RowHolds ns) count_rows
  unfolding RowHolds pod_charges is_annotation_exists
  count_rows_hold ns = (
    simp row_laws,
    (
      simp row_laws,
      (
        simp row_laws,
        (simp row_laws, (simp row_laws, (simp row_laws, (simp row_laws, (simp row_laws, tt))))),
      ),
    ),
  )

  total_of :
      (resources : Pod B → ResourceList Q)
      → ((pod : Pod B) → IsMap (resources pod))
      → (m : ResourceName) (pods : List (Pod B))
      → q.amount (at (pod_totals resources [] pods) m)
        ≡ sum_where is_live_pod (λ pod. amount_at (resources pod) m) pods
  total_of resources maps m pods =
      amount_at-pod_totals resources m pods [] maps
      ∙ ap (λ a. a +ℤ sum_where is_counted_pod (λ pod. amount_at (resources pod) m) pods)
          (amount_at-nil q m)
      ∙ zero-+ℤ _
      ∙ ap (λ t. sum_where t (λ pod. amount_at (resources pod) m) pods) is_live_pod_lem

  request_total :
      (m : ResourceName) (pods : List (Pod B))
      → q.amount (at (pod_totals helper.pod_requests [] pods) m)
        ≡ sum_where is_live_pod (λ pod. amount_at (helper.pod_requests pod) m) pods
  request_total = total_of helper.pod_requests helper.pod_requests-IsMap

  limit_total :
      (m : ResourceName) (pods : List (Pod B))
      → q.amount (at (pod_totals helper.pod_limits [] pods) m)
        ≡ sum_where is_live_pod (λ pod. amount_at (helper.pod_limits pod) m) pods
  limit_total = total_of helper.pod_limits helper.pod_limits-IsMap

  pod_rows_hold : (ns : String) → All (RowHolds ns) (pod_rows helper)
  unfolding RowHolds pod_charges
  pod_rows_hold ns = (
    simp (row_laws, is_live_pod_lem),
    (
      simp (row_laws, request_total),
      (
        simp (row_laws, request_total),
        (
          simp (row_laws, request_total),
          (
            simp (row_laws, request_total),
            (
              simp (row_laws, request_total),
              (
                simp (row_laws, request_total),
                (
                  simp (row_laws, request_total),
                  (
                    simp (row_laws, request_total),
                    (
                      simp (row_laws, limit_total),
                      (simp (row_laws, limit_total), (simp (row_laws, limit_total), tt)),
                    ),
                  ),
                ),
              ),
            ),
          ),
        ),
      ),
    ),
  )

  row_total_of_rows :
      (row : Row B)
      → ((ns : String) → RowHolds ns row)
      → (nss : List String)
      → total_charge helper client hard s row.name nss ≡ row_total helper client hard s row nss
  unfolding RowHolds
  row_total_of_rows row holds [] = refl
  row_total_of_rows row holds (ns ∷ rest) =
      ap (λ a. a +ℤ total_charge helper client hard s row.name rest) (holds ns)
      ∙ ap (λ a. row_charge helper client hard s row ns +ℤ a) (row_total_of_rows row holds rest)

  -- The usage that a successful calculation from an empty map gives to a row.
  abbrev pub RowCounted : ResourceList Q → List String → Row B → Type 0
  RowCounted used nss row = amount_at used row.name ≡ row_total helper client hard s row nss

  row_counted :
      (nss : List String) (used : ResourceList Q)
      → count_namespaces helper client hard s nss [] ≡ ok used
      → (row : Row B) → ((ns : String) → RowHolds ns row)
      → RowCounted used nss row
  row_counted nss used counted row holds =
      subst (Adds row.name [] (total_charge helper client hard s row.name nss)) counted
        (count_namespaces-Adds helper client hard s row.name nss [])
      ∙ ap (λ a. a +ℤ total_charge helper client hard s row.name nss) (amount_at-nil q row.name)
      ∙ zero-+ℤ _
      ∙ row_total_of_rows row holds nss

  rows_hold :
      (rows : List (Row B))
      → ((ns : String) → All (RowHolds ns) rows)
      → All (λ row. (ns : String) → RowHolds ns row) rows
  rows_hold [] h = tt
  rows_hold (row ∷ rest) h = ((λ ns. (h ns).0), rows_hold rest (λ ns. (h ns).1))

  -- A calculation over the namespaces of a project that succeeds, whatever the old status was,
  -- gives each of the twenty resources exactly what it counts: the sum over the namespaces (one
  -- that is listed twice counts twice) of what the annotated objects of its kind add, terminated
  -- pods left out, provided that the project limits the resource and also the count of its kind;
  -- and zero if it does not limit both.
  pub usage_rows :
      (nss : List String) (old : Option (ResourceList Q)) (used : ResourceList Q)
      → count_namespaces helper client hard s nss (reset_used old) ≡ ok used
      → All (RowCounted used nss) (count_rows ++ pod_rows helper)
  usage_rows nss old used calculated =
      let counted = rw reset_used_lem at calculated in
      All-map (λ row. (ns : String) → RowHolds ns row) (RowCounted used nss)
        (count_rows ++ pod_rows helper) (row_counted nss used counted)
        (All-append (λ row. (ns : String) → RowHolds ns row) count_rows (pod_rows helper)
          (rows_hold count_rows count_rows_hold) (rows_hold (pod_rows helper) pod_rows_hold))
