-- ===== src/Controller/Usage/Agreement.antt =====
-- The validator of pods and the calculation of the usage have a table each of what a pod's requests
-- and limits are held to.
use projectresourcequota.Prelude.{◌≡◌, refl, some, All}
use projectresourcequota.Dict.{lookup}
use projectresourcequota.Quantity.{Quantity}
use projectresourcequota.Api.{ResourceList}
use projectresourcequota.Webhook.Pod.{checks}
use projectresourcequota.Controller.Usage.{pod_charges}

module _ {Q : Type 0} ⦃q : Quantity Q⦄ (requests limits : ResourceList Q) where
  -- The two tables agree: what the validator holds a pod to, under each resource, is what the
  -- controller charges under that resource, and it charges nothing else.
  pub checks-pod_charges :
      All
        (λ check. lookup check.0 (pod_charges requests limits) ≡ some check.1)
        (checks requests limits)
      × All
          (λ charge. lookup charge.0 (checks requests limits) ≡ some charge.1)
          (pod_charges requests limits)
  unfolding checks pod_charges lookup
  checks-pod_charges = (
    (refl, (refl, (refl, (refl, (refl, (refl, (refl, (refl, (refl, (refl, (refl, tt))))))))))),
    (refl, (refl, (refl, (refl, (refl, (refl, (refl, (refl, (refl, (refl, (refl, tt))))))))))),
  )
