-- ===== src/Controller/Usage/Tables.antt =====
-- What each block of `count_namespace` adds to the amount of one resource, whichever it is.
use projectresourcequota.Prelude.{
  String, ◌≡◌, ap, sym, ◌∙◌, Bool, true, false, List, [], ◌∷◌, ◌==◌, if◌then◌else◌,
}
use projectresourcequota.Prelude.Int.{ℤ, pos, ◌+ℤ◌, +ℤ-zero, +ℤ_assoc}
use projectresourcequota.Dict.{has}
use projectresourcequota.Quantity.{Quantity}
use projectresourcequota.Api.{Kind, Object, Body, Pod, Service, ResourceList}
use projectresourcequota.Api.Names.{
  ResourceName, service_type_node_port, service_type_load_balancer, resource_pods,
  resource_services, resource_config_maps, resource_persistent_volume_claims,
  resource_replication_controllers, resource_quotas, resource_secrets, resource_services_node_ports,
  resource_services_load_balancers,
}
use projectresourcequota.Api.Result.{Result, ok, err, ◌>>=◌}
use projectresourcequota.Webhook.Pod.{PodResources}
use projectresourcequota.Controller.Cluster.{Client}
use projectresourcequota.Controller.Usage.{
  is_annotated, is_counted_pod, is_of_type, count_where, add_used, pod_totals, pod_charges,
  count_kind, charge_pods, count_pods, charge_services, count_services, count_namespace,
  count_namespaces,
}
use projectresourcequota.Controller.Usage.Sums.{
  sum_where, one, amount_at, amount-count_where, amount_at-add_used, amount_at-charge_table,
  charged,
}

module _ {Q : Type 0} ⦃q : Quantity Q⦄ (m : ResourceName) where
  -- A calculation that succeeds adds `delta` to the amount of `m`.
  abbrev pub Adds : ResourceList Q → ℤ → Result Q (ResourceList Q) → Type 0
  Adds used delta (ok used') = amount_at used' m ≡ amount_at used m +ℤ delta
  Adds used delta (err e) = Unit

  pub Adds-bind :
      (used : ResourceList Q) (d d' : ℤ) (r : Result Q (ResourceList Q))
      (f : ResourceList Q → Result Q (ResourceList Q))
      → Adds used d r
      → ((u : ResourceList Q) → Adds u d' (f u))
      → Adds used (d +ℤ d') (r >>= f)
  Adds-bind used d d' (err e) f h k = tt
  Adds-bind used d d' (ok u) f h k = continue (f u) (k u)
    where
      continue : (r : Result Q (ResourceList Q)) → Adds u d' r → Adds used (d +ℤ d') r
      continue (ok u') h' = h' ∙ ap (λ a. a +ℤ d') h ∙ +ℤ_assoc (amount_at used m) d d'
      continue (err e) h' = tt

  -- A block that is skipped unless a resource is limited.
  Adds-if :
      (limited : Bool) (used : ResourceList Q) (d : ℤ) (r : Result Q (ResourceList Q))
      → Adds used d r
      → Adds used (if limited then d else pos 0) (if limited then r else ok used)
  Adds-if true used d r h = h
  Adds-if false used d r h = sym (+ℤ-zero (amount_at used m))

-- The items that a call listed.
abbrev pub items_of : {Q A : Type 0} → Result Q (List A) → List A
items_of (ok items) = items
items_of (err e) = []

module _ {Q B S : Type 0} ⦃q : Quantity Q⦄ (helper : PodResources Q B) (client : Client Q B S)
    (hard : ResourceList Q) (s : S) (m : ResourceName) where
  abbrev pub listed : (k : Kind) → String → List (Object (Body B k))
  listed k namespace = items_of (client.list k namespace s)

  abbrev pub kind_charge : String → Kind → ResourceName → ℤ
  kind_charge namespace k name =
      if has name hard
      then (if name == m then sum_where is_annotated (λ _. one) (listed k namespace) else pos 0)
      else pos 0

  count_kind-Adds :
      (namespace : String) (k : Kind) (name : ResourceName) (used : ResourceList Q)
      → Adds m used
          (kind_charge namespace k name)
          (count_kind helper client hard namespace s k name used)
  unfolding count_kind
  count_kind-Adds namespace k name used =
      Adds-if m (has name hard) used _ _ (counted (client.list k namespace s))
    where
      counted :
          (r : Result Q (List (Object (Body B k))))
          → Adds m used
              (if name == m then sum_where is_annotated (λ _. one) (items_of r) else pos 0)
              (r >>= λ items.
                ok (add_used name (q.of_count (count_where is_annotated 0 items)) used))
      counted (err e) = tt
      counted (ok items) =
          amount_at-add_used name m _ used
          ∙ ap (λ a. amount_at used m +ℤ (if name == m then a else pos 0))
              (amount-count_where q is_annotated items)

  -- What the pods of a list add: one for each that counts, and the table of their totals.
  abbrev pub pods_charge : List (Pod B) → ℤ
  pods_charge pods =
      (if resource_pods == m then sum_where is_counted_pod (λ _. one) pods else pos 0)
      +ℤ charged hard m (
          pod_charges (pod_totals helper.pod_requests [] pods)
            (pod_totals helper.pod_limits [] pods))

  charge_pods-Adds :
      (namespace : String) (pods : List (Pod B)) (used : ResourceList Q)
      → Adds m used (pods_charge pods) (ok (charge_pods helper client hard namespace s pods used))
  unfolding charge_pods
  charge_pods-Adds namespace pods used =
      amount_at-charge_table hard m _ resource_pods _ used ∙ simp (amount-count_where q)

  count_pods-Adds :
      (namespace : String) (used : ResourceList Q)
      → Adds m used
          (if has resource_pods hard then pods_charge (listed Kind.pod namespace) else pos 0)
          (count_pods helper client hard namespace s used)
  unfolding count_pods
  count_pods-Adds namespace used =
      Adds-if m (has resource_pods hard) used _ _ (counted (client.list Kind.pod namespace s))
    where
      counted :
          (r : Result Q (List (Pod B)))
          → Adds m used
              (pods_charge (items_of r))
              (r >>= λ pods. ok (charge_pods helper client hard namespace s pods used))
      counted (err e) = tt
      counted (ok pods) = charge_pods-Adds namespace pods used

  abbrev pub services_charge : List (Service B) → ℤ
  services_charge services =
      (if resource_services == m then sum_where is_annotated (λ _. one) services else pos 0)
      +ℤ ((if has resource_services_node_ports hard
            then (if resource_services_node_ports == m
                then sum_where (is_of_type service_type_node_port) (λ _. one) services
                else pos 0)
            else pos 0)
          +ℤ ((if has resource_services_load_balancers hard
                then (if resource_services_load_balancers == m
                    then sum_where (is_of_type service_type_load_balancer) (λ _. one) services
                    else pos 0)
                else pos 0)
              +ℤ pos 0))

  charge_services-Adds :
      (namespace : String) (services : List (Service B)) (used : ResourceList Q)
      → Adds m used
          (services_charge services)
          (ok (charge_services helper client hard namespace s services used))
  unfolding charge_services
  charge_services-Adds namespace services used =
      amount_at-charge_table hard m _ resource_services _ used ∙ simp (amount-count_where q)

  count_services-Adds :
      (namespace : String) (used : ResourceList Q)
      → Adds m used
          (if has resource_services hard
            then services_charge (listed Kind.service namespace)
            else pos 0)
          (count_services helper client hard namespace s used)
  unfolding count_services
  count_services-Adds namespace used =
      Adds-if m (has resource_services hard) used _ _
        (counted (client.list Kind.service namespace s))
    where
      counted :
          (r : Result Q (List (Service B)))
          → Adds m used
              (services_charge (items_of r))
              (r >>= λ services. ok (charge_services helper client hard namespace s services used))
      counted (err e) = tt
      counted (ok services) = charge_services-Adds namespace services used

  -- What one namespace adds.
  abbrev pub namespace_charge : String → ℤ
  namespace_charge namespace =
      kind_charge namespace Kind.config_map resource_config_maps
      +ℤ (kind_charge namespace Kind.persistent_volume_claim resource_persistent_volume_claims
          +ℤ ((if has resource_pods hard then pods_charge (listed Kind.pod namespace) else pos 0)
              +ℤ (kind_charge namespace Kind.replication_controller resource_replication_controllers
                  +ℤ (kind_charge namespace Kind.resource_quota resource_quotas
                      +ℤ (kind_charge namespace Kind.secret resource_secrets
                          +ℤ (if has resource_services hard
                              then services_charge (listed Kind.service namespace)
                              else pos 0))))))

  count_namespace-Adds :
      (namespace : String) (used : ResourceList Q)
      → Adds m used
          (namespace_charge namespace)
          (count_namespace helper client hard namespace s used)
  unfolding count_namespace
  count_namespace-Adds namespace used =
      Adds-bind m used _ _ _ _ (count_kind-Adds namespace Kind.config_map resource_config_maps used)
        λ u1.
          Adds-bind m u1 _ _ _ _
            (count_kind-Adds namespace Kind.persistent_volume_claim
              resource_persistent_volume_claims u1)
            λ u2. Adds-bind m u2 _ _ _ _ (count_pods-Adds namespace u2) λ u3.
              Adds-bind m u3 _ _ _ _
                (count_kind-Adds namespace Kind.replication_controller
                  resource_replication_controllers u3)
                λ u4.
                  Adds-bind m u4 _ _ _ _
                    (count_kind-Adds namespace Kind.resource_quota resource_quotas u4)
                    λ u5.
                      Adds-bind m u5 _ _ _ _
                        (count_kind-Adds namespace Kind.secret resource_secrets u5)
                        λ u6. count_services-Adds namespace u6

  -- What a list of namespaces adds; one that is listed twice adds twice.
  abbrev pub total_charge : List String → ℤ
  total_charge [] = pos 0
  total_charge (namespace ∷ rest) = namespace_charge namespace +ℤ total_charge rest

  pub count_namespaces-Adds :
      (nss : List String) (used : ResourceList Q)
      → Adds m used (total_charge nss) (count_namespaces helper client hard s nss used)
  unfolding count_namespaces
  count_namespaces-Adds [] used = sym (+ℤ-zero (amount_at used m))
  count_namespaces-Adds (namespace ∷ rest) used =
      Adds-bind m used (namespace_charge namespace) (total_charge rest) _ _
        (count_namespace-Adds namespace used) (count_namespaces-Adds rest)
