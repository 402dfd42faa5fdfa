-- ===== src/Controller/Usage/Extent.antt =====
-- The calculation of the usage reads nothing of the cluster but its lists.
use projectresourcequota.Prelude.{String, ◌≡◌, refl, ap, ◌∙◌, List, [], ◌∷◌}
use projectresourcequota.Quantity.{Quantity}
use projectresourcequota.Api.{Kind, ResourceList}
use projectresourcequota.Api.Names.{
  ResourceName, resource_config_maps, resource_persistent_volume_claims,
  resource_replication_controllers, resource_quotas, resource_secrets,
}
use projectresourcequota.Api.Result.{Result, ok, err, ◌>>=◌}
use projectresourcequota.Webhook.Pod.{PodResources}
use projectresourcequota.Controller.Cluster.{Client}
use projectresourcequota.Controller.Usage.{
  count_kind, charge_pods, count_pods, charge_services, count_services, count_namespace,
  count_namespaces,
}

module _ {Q : Type 0} where
  bind_ext :
      {A B : Type 0} {r r' : Result Q A} {f g : A → Result Q B}
      → r ≡ r'
      → ((a : A) → f a ≡ g a)
      → (r >>= f) ≡ (r' >>= g)
  bind_ext {r} {r'} {f} {g} e h = ap (λ x. x >>= f) e ∙ pointwise r'
    where
      pointwise : (x : Result Q _) → (x >>= f) ≡ (x >>= g)
      pointwise (ok a) = h a
      pointwise (err x) = refl

module _ {Q B S : Type 0} ⦃q : Quantity Q⦄ (helper : PodResources Q B) (client : Client Q B S)
    (hard : ResourceList Q) (s s' : S)
    (same : (k : Kind) (ns : String) → client.list k ns s ≡ client.list k ns s') where
  count_kind-same :
      (ns : String) (k : Kind) (name : ResourceName) (used : ResourceList Q)
      → count_kind helper client hard ns s k name used
        ≡ count_kind helper client hard ns s' k name used
  unfolding count_kind
  count_kind-same ns k name used = rw (same k ns)

  count_pods-same :
      (ns : String) (used : ResourceList Q)
      → count_pods helper client hard ns s used ≡ count_pods helper client hard ns s' used
  unfolding count_pods charge_pods
  count_pods-same ns used = rw (same Kind.pod ns)

  count_services-same :
      (ns : String) (used : ResourceList Q)
      → count_services helper client hard ns s used ≡ count_services helper client hard ns s' used
  unfolding count_services charge_services
  count_services-same ns used = rw (same Kind.service ns)

  count_namespace-same :
      (ns : String) (used : ResourceList Q)
      → count_namespace helper client hard ns s used ≡ count_namespace helper client hard ns s' used
  unfolding count_namespace
  count_namespace-same ns used =
      bind_ext (count_kind-same ns Kind.config_map resource_config_maps used) λ u1.
        bind_ext
          (count_kind-same ns Kind.persistent_volume_claim resource_persistent_volume_claims u1)
          λ u2. bind_ext (count_pods-same ns u2) λ u3.
            bind_ext
              (count_kind-same ns Kind.replication_controller resource_replication_controllers u3)
              λ u4. bind_ext (count_kind-same ns Kind.resource_quota resource_quotas u4) λ u5.
                bind_ext (count_kind-same ns Kind.secret resource_secrets u5)
                  λ u6. count_services-same ns u6

  pub count_namespaces-same :
      (nss : List String) (used : ResourceList Q)
      → count_namespaces helper client hard s nss used
        ≡ count_namespaces helper client hard s' nss used
  unfolding count_namespaces
  count_namespaces-same [] used = refl
  count_namespaces-same (ns ∷ rest) used =
      bind_ext (count_namespace-same ns used) (count_namespaces-same rest)
