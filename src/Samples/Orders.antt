-- ===== src/Samples/Orders.antt =====
-- The theorems on the order of maps, at maps with two entries in both orders.
use projectresourcequota.Prelude.{
  String, ◌≡◌, refl, false, some, [], ◌∷◌, ◌++◌, ◌==◌, eq_iff, All, arith,
}
use projectresourcequota.Prelude.Int.{ℤ, ◌+ℤ◌}
use projectresourcequota.Dict.{Dict, IsMap, lookup, insert, erase}
use projectresourcequota.Dict.Order.{SameMap}
use projectresourcequota.Api.{ResourceList}
use projectresourcequota.Api.Result.{ok}
use projectresourcequota.Util.{is_annotation_exists}
use projectresourcequota.Webhook.Counting.{at}
use projectresourcequota.Webhook.Pod.{PodResources}
use projectresourcequota.Controller.Usage.{
  reset_used, count_namespaces, count_namespace, count_kind, count_pods, charge_pods,
  count_services, add_used, add_limited, add_resource_list, pod_charges, pod_totals, count_where,
  is_pod_terminated,
}
use projectresourcequota.Controller.Usage.Sums.{amount_at}
use projectresourcequota.Controller.Usage.Counts.{count_rows, pod_rows}
use projectresourcequota.Controller.Usage.Order.{usage_order}
use projectresourcequota.Samples.{exact, whole, two_cpu, team_busy}
use projectresourcequota.Samples.Usage.{reads_only, two_pods}

SameMap-swap :
    {V : Type 0} (i j : String) (v w : V) (d : Dict V)
    → i == j ≡ false
    → SameMap ((i, v) ∷ (j, w) ∷ d) ((j, w) ∷ (i, v) ∷ d)
unfolding lookup
SameMap-swap i j v w d apart k = ground (arith, eq_iff i k, eq_iff j k, eq_iff i j)

-- Every pod requests a unit of cpu and two of memory.
abbrev requests : ResourceList ℤ
requests = ("cpu", whole 1) ∷ ("memory", whole 2) ∷ []

abbrev requests_swapped : ResourceList ℤ
requests_swapped = ("memory", whole 2) ∷ ("cpu", whole 1) ∷ []

requests-IsMap : IsMap requests × IsMap requests_swapped
unfolding lookup
requests-IsMap = ((refl, (refl, tt)), (refl, (refl, tt)))

abbrev one_order : PodResources ℤ (Unit {0})
one_order = record two_cpu {
  pod_requests = λ pod. requests;
  pod_requests-IsMap = λ pod. requests-IsMap.0;
}

abbrev other_order : PodResources ℤ (Unit {0})
other_order = record two_cpu {
  pod_requests = λ pod. requests_swapped;
  pod_requests-IsMap = λ pod. requests-IsMap.1;
}

abbrev limits : ResourceList ℤ
limits = ("pods", whole 9) ∷ ("memory", whole 5) ∷ []

abbrev limits_swapped : ResourceList ℤ
limits_swapped = ("memory", whole 5) ∷ ("pods", whole 9) ∷ []

abbrev usage : ResourceList ℤ
usage = ("pods", whole 2) ∷ ("memory", whole 4) ∷ []

one_run :
    count_namespaces one_order
      (reads_only team_busy)
      limits
      two_pods
      ("a1" ∷ [])
      (reset_used (some []))
    ≡ ok usage
unfolding reset_used count_namespaces count_namespace count_kind count_pods charge_pods add_limited
    add_used pod_charges pod_totals count_where is_pod_terminated add_resource_list lookup insert
    erase ◌+ℤ◌ count_services at is_annotation_exists
one_run = refl

other_run :
    count_namespaces other_order
      (reads_only team_busy)
      limits_swapped
      two_pods
      ("a1" ∷ [])
      (reset_used (some usage))
    ≡ ok usage
unfolding reset_used count_namespaces count_namespace count_kind count_pods charge_pods add_limited
    add_used pod_charges pod_totals count_where is_pod_terminated add_resource_list lookup insert
    erase ◌+ℤ◌ count_services at is_annotation_exists
other_run = refl

usage_order_example :
    All
      (λ row. amount_at usage row.name ≡ amount_at usage row.name)
      (count_rows ++ pod_rows one_order)
usage_order_example =
    usage_order one_order other_order (reads_only team_busy) limits limits_swapped two_pods
      (SameMap-swap "pods" "memory" (whole 9) (whole 5) [] refl)
      (λ pod. SameMap-swap "cpu" "memory" (whole 1) (whole 2) [] refl) (λ pod k. refl) ("a1" ∷ [])
      (some []) (some usage) usage usage one_run other_run
