-- ===== src/Controller/Usage/Success.antt =====
-- The calculation of the usage succeeds if every list does.
use projectresourcequota.Prelude.{
  String, ◌≡◌, refl, Bool, true, false, List, [], ◌∷◌, if◌then◌else◌,
}
use projectresourcequota.Dict.{has}
use projectresourcequota.Quantity.{Quantity}
use projectresourcequota.Api.{Kind, ResourceList}
use projectresourcequota.Api.Names.{
  ResourceName, resource_pods, resource_services, resource_config_maps,
  resource_persistent_volume_claims, resource_replication_controllers, resource_quotas,
  resource_secrets,
}
use projectresourcequota.Api.Result.{Result, ok, ◌>>=◌}
use projectresourcequota.Webhook.Pod.{PodResources}
use projectresourcequota.Controller.Cluster.{Client}
use projectresourcequota.Controller.Cluster.Laws.{IsReliable}
use projectresourcequota.Controller.Usage.{
  count_kind, count_pods, count_services, count_namespace, count_namespaces,
}

module _ {Q : Type 0} where
  abbrev pub IsGiven : {A : Type 0} → Result Q A → Type 0
  IsGiven {A} r = (a : A) × (r ≡ ok a)

  bind-IsGiven :
      {A B : Type 0} (r : Result Q A) (f : A → Result Q B)
      → IsGiven r
      → ((a : A) → IsGiven (f a))
      → IsGiven (r >>= f)
  bind-IsGiven r f (a, e) g = rw e (g a)

  if-IsGiven :
      {A : Type 0} (b : Bool) (r : Result Q A) (a : A) → IsGiven r → IsGiven (if b then r else ok a)
  if-IsGiven true r a h = h
  if-IsGiven false r a h = (a, refl)

module _ {Q B S : Type 0} ⦃q : Quantity Q⦄ (helper : PodResources Q B) (client : Client Q B S)
    (reliable : IsReliable client) (hard : ResourceList Q) (s : S) where
  count_kind-IsGiven :
      (ns : String) (k : Kind) (name : ResourceName) (used : ResourceList Q)
      → IsGiven (count_kind helper client hard ns s k name used)
  unfolding count_kind
  count_kind-IsGiven ns k name used =
      if-IsGiven (has name hard) _ used
        (bind-IsGiven (client.list k ns s) _ (reliable.list-ok k ns s) (λ items. (_, refl)))

  count_pods-IsGiven :
      (ns : String) (used : ResourceList Q) → IsGiven (count_pods helper client hard ns s used)
  unfolding count_pods
  count_pods-IsGiven ns used = if-IsGiven (has resource_pods hard) _ used (
      bind-IsGiven (client.list Kind.pod ns s) _ (reliable.list-ok Kind.pod ns s)
        (λ items. (_, refl)))

  count_services-IsGiven :
      (ns : String) (used : ResourceList Q) → IsGiven (count_services helper client hard ns s used)
  unfolding count_services
  count_services-IsGiven ns used = if-IsGiven (has resource_services hard) _ used (
      bind-IsGiven (client.list Kind.service ns s) _ (reliable.list-ok Kind.service ns s)
        (λ items. (_, refl)))

  count_namespace-IsGiven :
      (ns : String) (used : ResourceList Q) → IsGiven (count_namespace helper client hard ns s used)
  unfolding count_namespace
  count_namespace-IsGiven ns used =
      bind-IsGiven _ _ (count_kind-IsGiven ns Kind.config_map resource_config_maps used) λ u1.
        bind-IsGiven _ _
          (count_kind-IsGiven ns Kind.persistent_volume_claim resource_persistent_volume_claims u1)
          λ u2. bind-IsGiven _ _ (count_pods-IsGiven ns u2) λ u3.
            bind-IsGiven _ _
              (count_kind-IsGiven ns Kind.replication_controller resource_replication_controllers
                u3)
              λ u4.
                bind-IsGiven _ _ (count_kind-IsGiven ns Kind.resource_quota resource_quotas u4)
                  λ u5.
                    bind-IsGiven _ _ (count_kind-IsGiven ns Kind.secret resource_secrets u5)
                      λ u6. count_services-IsGiven ns u6

  -- With a client that does not fail, the usage is calculated.
  pub count_namespaces-IsGiven :
      (nss : List String) (used : ResourceList Q)
      → IsGiven (count_namespaces helper client hard s nss used)
  unfolding count_namespaces
  count_namespaces-IsGiven [] used = (used, refl)
  count_namespaces-IsGiven (ns ∷ rest) used =
      bind-IsGiven _ _ (count_namespace-IsGiven ns used) (count_namespaces-IsGiven rest)
