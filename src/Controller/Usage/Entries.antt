-- ===== src/Controller/Usage/Entries.antt =====
-- The resources of which a calculated usage has an entry.
use projectresourcequota.Prelude.{
  String, ◌≡◌, refl, ap, sym, ◌∙◌, Option, Bool, true, false, ◌==◌, eq_iff, List, [], ◌∷◌,
  Bool-cases, inl, inr, if◌then◌else◌, subst,
}
use projectresourcequota.Dict.{has, is_found, lookup}
use projectresourcequota.Dict.Laws.{lookup-insert}
use projectresourcequota.Quantity.{Quantity}
use projectresourcequota.Api.{Kind, Object, Body, Pod, Service, ResourceList}
use projectresourcequota.Api.Names.{
  ResourceName, resource_pods, resource_services, resource_config_maps,
  resource_persistent_volume_claims, resource_replication_controllers, resource_quotas,
  resource_secrets,
}
use projectresourcequota.Api.Result.{Result, ok, err, ◌>>=◌}
use projectresourcequota.Webhook.Pod.{PodResources}
use projectresourcequota.Controller.Cluster.{Client}
use projectresourcequota.Controller.Usage.{
  add_used, add_limited, count_kind, charge_pods, count_pods, charge_services, count_services,
  count_namespace, count_namespaces, reset_used, count_where, is_annotated,
}
use projectresourcequota.Controller.Usage.Sums.{reset_used_lem}

module _ {Q : Type 0} (hard : ResourceList Q) where
  -- Each entry of a usage is of a resource that is limited.
  abbrev pub IsLimited : ResourceList Q → Type 0
  IsLimited used = (m : ResourceName) → has m used ≡ true → has m hard ≡ true

  AllLimited : Result Q (ResourceList Q) → Type 0
  AllLimited (ok used) = IsLimited used
  AllLimited (err e) = Unit

  bind-AllLimited :
      (r : Result Q (ResourceList Q)) (f : ResourceList Q → Result Q (ResourceList Q))
      → AllLimited r
      → ((u : ResourceList Q) → IsLimited u → AllLimited (f u))
      → AllLimited (r >>= f)
  unfolding AllLimited
  bind-AllLimited (ok u) f h g = g u h
  bind-AllLimited (err e) f h g = tt

  if-AllLimited :
      (b : Bool) (r : Result Q (ResourceList Q)) (used : ResourceList Q)
      → IsLimited used
      → (b ≡ true → AllLimited r)
      → AllLimited (if b then r else ok used)
  unfolding AllLimited
  if-AllLimited true r used h g = g refl
  if-AllLimited false r used h g = h

module _ {Q : Type 0} ⦃q : Quantity Q⦄ (hard : ResourceList Q) where
  add_used-IsLimited :
      (name : ResourceName) (x : Q) (used : ResourceList Q)
      → has name hard ≡ true
      → IsLimited hard used
      → IsLimited hard (add_used name x used)
  unfolding add_used
  add_used-IsLimited name x used limited h m found = elim (Bool-cases (name == m)) [
    | inl same ↦ subst (λ n. has n hard ≡ true) ((eq_iff name m).0 same) limited
    | inr other ↦ h m (sym (ap is_found (lookup-insert name m _ used ∙ rw other refl)) ∙ found)
  ]

  add_limited-IsLimited :
      (table : List (ResourceName × Q)) (used : ResourceList Q)
      → IsLimited hard used
      → IsLimited hard (add_limited hard table used)
  unfolding add_limited
  add_limited-IsLimited [] used h = h
  add_limited-IsLimited ((name, x) ∷ rest) used h = elim (Bool-cases (has name hard)) [
    | inl limited ↦ rw limited (
        add_limited-IsLimited rest (add_used name x used)
          (add_used-IsLimited name x used limited h))
    | inr free ↦ rw free (add_limited-IsLimited rest used h)
  ]

module _ {Q B S : Type 0} ⦃q : Quantity Q⦄ (helper : PodResources Q B) (client : Client Q B S)
    (hard : ResourceList Q) (s : S) where
  count_kind-AllLimited :
      (ns : String) (k : Kind) (name : ResourceName) (used : ResourceList Q)
      → IsLimited hard used
      → AllLimited hard (count_kind helper client hard ns s k name used)
  unfolding count_kind AllLimited
  count_kind-AllLimited ns k name used h =
      if-AllLimited hard (has name hard) _ used h λ limited. by_list limited (client.list k ns s)
    where
      by_list :
          has name hard ≡ true
          → (r : Result Q (List (Object (Body B k))))
          → AllLimited hard (
              r >>= λ items.
              ok (add_used name (q.of_count (count_where is_annotated 0 items)) used))
      by_list limited (ok items) = add_used-IsLimited hard name _ used limited h
      by_list limited (err e) = tt

  count_pods-AllLimited :
      (ns : String) (used : ResourceList Q)
      → IsLimited hard used
      → AllLimited hard (count_pods helper client hard ns s used)
  unfolding count_pods charge_pods AllLimited
  count_pods-AllLimited ns used h =
      if-AllLimited hard (has resource_pods hard) _ used h
        λ limited. by_list limited (client.list Kind.pod ns s)
    where
      by_list :
          has resource_pods hard ≡ true
          → (r : Result Q (List (Pod B)))
          → AllLimited hard (r >>= λ pods. ok (charge_pods helper client hard ns s pods used))
      by_list limited (ok pods) =
          add_limited-IsLimited hard _ _ (add_used-IsLimited hard resource_pods _ used limited h)
      by_list limited (err e) = tt

  count_services-AllLimited :
      (ns : String) (used : ResourceList Q)
      → IsLimited hard used
      → AllLimited hard (count_services helper client hard ns s used)
  unfolding count_services charge_services AllLimited
  count_services-AllLimited ns used h =
      if-AllLimited hard (has resource_services hard) _ used h
        λ limited. by_list limited (client.list Kind.service ns s)
    where
      by_list :
          has resource_services hard ≡ true
          → (r : Result Q (List (Service B)))
          → AllLimited hard
              (r >>= λ services. ok (charge_services helper client hard ns s services used))
      by_list limited (ok services) =
          add_limited-IsLimited hard _ _
            (add_used-IsLimited hard resource_services _ used limited h)
      by_list limited (err e) = tt

  count_namespace-AllLimited :
      (ns : String) (used : ResourceList Q)
      → IsLimited hard used
      → AllLimited hard (count_namespace helper client hard ns s used)
  unfolding count_namespace
  count_namespace-AllLimited ns used h =
      bind-AllLimited hard _ _
        (count_kind-AllLimited ns Kind.config_map resource_config_maps used h)
        λ u1 h1.
          bind-AllLimited hard _ _
            (count_kind-AllLimited ns Kind.persistent_volume_claim resource_persistent_volume_claims
              u1 h1)
            λ u2 h2. bind-AllLimited hard _ _ (count_pods-AllLimited ns u2 h2) λ u3 h3.
              bind-AllLimited hard _ _
                (count_kind-AllLimited ns Kind.replication_controller
                  resource_replication_controllers u3 h3)
                λ u4 h4.
                  bind-AllLimited hard _ _
                    (count_kind-AllLimited ns Kind.resource_quota resource_quotas u4 h4)
                    λ u5 h5.
                      bind-AllLimited hard _ _
                        (count_kind-AllLimited ns Kind.secret resource_secrets u5 h5)
                        λ u6 h6. count_services-AllLimited ns u6 h6

  count_namespaces-AllLimited :
      (nss : List String) (used : ResourceList Q)
      → IsLimited hard used
      → AllLimited hard (count_namespaces helper client hard s nss used)
  unfolding count_namespaces AllLimited
  count_namespaces-AllLimited [] used h = h
  count_namespaces-AllLimited (ns ∷ rest) used h =
      bind-AllLimited hard _ _ (count_namespace-AllLimited ns used h)
        (count_namespaces-AllLimited rest)

  -- A usage that was calculated has entries of limited resources only, whatever the old status had.
  pub usage_entries :
      (nss : List String) (old : Option (ResourceList Q)) (used : ResourceList Q)
      → count_namespaces helper client hard s nss (reset_used old) ≡ ok used
      → (m : ResourceName) → has m used ≡ true
      → has m hard ≡ true
  unfolding AllLimited lookup
  usage_entries nss old used counted = subst (AllLimited hard) counted (
      count_namespaces-AllLimited nss (reset_used old) (rw reset_used_lem (λ m found. absurd (cc))))
