-- ===== src/Controller/Cluster.antt =====
-- The cluster as the controller sees it through its client, which is not part of the repository:
-- a state of any type with the calls that read or write it. A call that writes returns the new
-- state beside its verdict. Nobody else writes between the calls of one reconciliation.
pub mod Laws
use projectresourcequota.Prelude.{String, Bool, List}
use projectresourcequota.Api.{Kind, Object, Body, ProjectResourceQuota}
use projectresourcequota.Api.Result.{Error, Result, ok, err, Verdict}

pub record Client (Q B S : Type 0) : Type 0 where
  -- `r.Get(ctx, req.NamespacedName, prq)`
  pub get : String → S → Result Q (ProjectResourceQuota Q)
  -- `errors.IsNotFound(err)`
  pub is_not_found : Error Q → Bool
  -- `r.Client.List(ctx, list, &client.ListOptions{Namespace: namespace})`, and its `Items`
  pub list : (k : Kind) → String → S → Result Q (List (Object (Body B k)))
  -- `r.Client.Update(ctx, &obj)`
  pub update : (k : Kind) → Object (Body B k) → S → Verdict Q × S
  -- `r.Update(ctx, prq)`
  pub update_project : ProjectResourceQuota Q → S → Verdict Q × S
  -- `r.Status().Update(ctx, prq)`
  pub update_status : ProjectResourceQuota Q → S → Verdict Q × S

-- Code that reads and writes the cluster and may return an error. What was written before an error
-- stays written.
abbrev pub Action : Type 0 → Type 0 → Type 0 → Type 0
Action Q S A = S → Result Q A × S

module _ {Q S : Type 0} where
  abbrev pub pure : {A : Type 0} → A → Action Q S A
  pure a s = (ok a, s)

  abbrev pub lift : {A : Type 0} → Result Q A → Action Q S A
  lift r s = (r, s)

  -- A call that only reads.
  abbrev pub reads : {A : Type 0} → (S → Result Q A) → Action Q S A
  reads f s = (f s, s)

  abbrev pub continue : {A B : Type 0} → Result Q A × S → (A → Action Q S B) → Result Q B × S
  continue (ok a, s) f = f a s
  continue (err e, s) f = (err e, s)

  infixl 5 ◌>>=◌ ◌>>◌
  abbrev pub ◌>>=◌ : {A B : Type 0} → Action Q S A → (A → Action Q S B) → Action Q S B
  ◌>>=◌ m f s = continue (m s) f

  abbrev pub ◌>>◌ : {B : Type 0} → Action Q S (Unit {0}) → Action Q S B → Action Q S B
  m >> k = m >>= λ _. k
