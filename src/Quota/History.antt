-- ===== src/Quota/History.antt =====
-- Creations that the webhooks let pass, deletions and reconciliations of one project, in any order:
-- how far the number of its objects may pass a limit.
use projectresourcequota.Prelude.{ℕ, ◌+◌, ◌≤◌, String, ◌≡◌, true, List, ◌∷◌, ◌++◌, contains}
use projectresourcequota.Quantity.{Quantity}
use projectresourcequota.Api.{Kind, Object, Body, ProjectResourceQuota}
use projectresourcequota.Api.Result.{ok}
use projectresourcequota.Api.Client.{Reader}
use projectresourcequota.Webhook.Annotator.Owner.{IsPartition}
use projectresourcequota.Webhook.Pod.{PodResources}
use projectresourcequota.Controller.Cluster.{Client}
use projectresourcequota.Controller.Strip.{StringSets}
use projectresourcequota.Controller.Reconcile.{reconcile}
use projectresourcequota.Quota.Admitted.{IsAdmitted}
use projectresourcequota.Quota.Tally.{IsOneMore}

-- What the webhooks read for a project is what is stored of it: they list it, among projects that
-- share no namespace, and they get it by its name.
pub record IsReading {Q B S : Type 0} (client : Client Q B S) (projects : S → Reader Q)
    (name : String) : Type 0 where
  pub named :
      (s : S) (prq : ProjectResourceQuota Q) → client.get name s ≡ ok prq → prq.meta.name ≡ name
  pub read :
      (s : S) (prq : ProjectResourceQuota Q)
      → client.get name s ≡ ok prq
      → (projects s).get name ≡ ok prq
  pub listed :
      (s : S) (prq : ProjectResourceQuota Q)
      → client.get name s ≡ ok prq
      → (before : List (ProjectResourceQuota Q)) × (after : List (ProjectResourceQuota Q))
        × ((projects s).list ≡ ok (before ++ prq ∷ after))
        × IsPartition (before ++ prq ∷ after)

module _ {Q B S N : Type 0} ⦃q : Quantity Q⦄ (helper : PodResources Q B) (sets : StringSets N)
    (client : Client Q B S) (projects : S → Reader Q) (name : String) (nss : List String) where
  -- The states that follow `s₀`, with the number of creations since the last reconciliation of the
  -- project, which was at most `r` before each creation.
  pub data History (r : ℕ) (start : S) : ℕ → S → Type 0 where
    started : History r start 0 start
    created :
        {n : ℕ} {s s' : S}
        → History r start n s
        → n ≤ r
        → (k : Kind) (obj obj' : Object (Body B k)) → IsAdmitted helper (projects s) k obj obj'
        → IsOneMore client k obj' s s'
        → History r start (n + 1) s'
    deleted :
        {n : ℕ} {s s' : S}
        → History r start n s
        → (k : Kind) (obj : Object (Body B k)) → IsOneMore client k obj s' s
        → History r start n s'
    -- Any change that leaves the project and the objects in its namespaces as they are.
    elsewhere :
        {n : ℕ} {s s' : S}
        → History r start n s
        → client.get name s' ≡ client.get name s
        → ((k : Kind) (ns : String)
            → contains ns nss ≡ true
            → client.list k ns s' ≡ client.list k ns s)
        → History r start n s'
    reconciled :
        {n : ℕ} {s s' : S}
        → History r start n s
        → reconcile helper sets client name s ≡ (ok tt, s')
        → History r start 0 s'
