-- ===== src/Startup/Manager.antt =====
-- The manager of controller-runtime, which is not part of the repository: a state of any type `M`
-- with the calls that build and start it. What is registered with it is a value.
use projectresourcequota.Prelude.{String, ◌≡◌, ◌≢◌, Bool, Option, some, List}
use projectresourcequota.Api.{Kind, Object, Body, ProjectResourceQuota}
use projectresourcequota.Api.Result.{Result, Verdict, ok}
use projectresourcequota.Api.Client.{Reader}

-- What a webhook is for: `&ProjectResourceQuota{}`, or an object of a kind.
pub data Target : Type 0 where
  project : Target
  objects : Kind → Target

abbrev pub Payload : Type 0 → Type 0 → Target → Type 0
Payload Q B Target.project = ProjectResourceQuota Q
Payload Q B (Target.objects k) = Object (Body B k)

-- The methods of a defaulter and of a validator, which get the manager's client.
pub record Webhook (Q T : Type 0) : Type 0 where
  pub default : Reader Q → T → Result Q T
  pub validate_create : Reader Q → T → Verdict Q
  pub validate_update : Reader Q → T → T → Verdict Q
  pub validate_delete : Reader Q → T → Verdict Q

-- `Watches(&corev1.ConfigMap{}, handler.EnqueueRequestsFromMapFunc(requests), …)`; the map function
-- takes any API object.
pub record Watch (B : Type 0) : Type 0 where
  pub kind : Kind
  pub requests : (k : Kind) → Object (Body B k) → List String

-- The fields of `ctrl.Options` that `main` sets.
pub record Options : Type 0 where
  pub metrics_bind_address : String
  pub health_probe_bind_address : String
  pub leader_election : Bool
  pub leader_election_id : String

-- `R` is the type of a reconciler.
pub record Manager (Q B R M : Type 0) : Type 0 where
  -- `ctrl.NewManager(ctrl.GetConfigOrDie(), options)`
  pub new_manager : Options → Result Q M
  -- `ctrl.NewWebhookManagedBy(mgr, …).WithDefaulter(…).WithValidator(…).Complete()`
  pub complete_webhook : (t : Target) → Webhook Q (Payload Q B t) → M → Verdict Q × M
  -- `ctrl.NewControllerManagedBy(mgr).For(&ProjectResourceQuota{}).Watches(…)….Complete(r)`
  pub complete_controller : List (Watch B) → R → M → Verdict Q × M
  -- `mgr.AddHealthzCheck(name, healthz.Ping)`
  pub add_healthz_check : String → M → Verdict Q × M
  -- `mgr.AddReadyzCheck(name, healthz.Ping)`
  pub add_readyz_check : String → M → Verdict Q × M
  -- `mgr.Start(ctrl.SetupSignalHandler())`
  pub start : M → Verdict Q

-- A manager keeps what was completed on it: the webhook of each target, and the controller.
pub record IsRegistry {Q B R M : Type 0} (manager : Manager Q B R M) : Type 0 where
  pub webhook_at : M → (t : Target) → Option (Webhook Q (Payload Q B t))
  pub controller_at : M → Option (List (Watch B) × R)
  pub webhook-at :
      (t : Target) (w : Webhook Q (Payload Q B t)) (m m' : M)
      → manager.complete_webhook t w m ≡ (ok tt, m')
      → webhook_at m' t ≡ some w
  pub webhook-other :
      (t : Target) (w : Webhook Q (Payload Q B t)) (m m' : M) (other : Target)
      → manager.complete_webhook t w m ≡ (ok tt, m')
      → t ≢ other
      → webhook_at m' other ≡ webhook_at m other
  pub webhook-controller :
      (t : Target) (w : Webhook Q (Payload Q B t)) (m m' : M)
      → manager.complete_webhook t w m ≡ (ok tt, m')
      → controller_at m' ≡ controller_at m
  pub controller-at :
      (watches : List (Watch B)) (r : R) (m m' : M)
      → manager.complete_controller watches r m ≡ (ok tt, m')
      → controller_at m' ≡ some (watches, r)
  pub healthz-keeps :
      (name : String) (m m' : M)
      → manager.add_healthz_check name m ≡ (ok tt, m')
      → (webhook_at m' ≡ webhook_at m) × (controller_at m' ≡ controller_at m)
  pub readyz-keeps :
      (name : String) (m m' : M)
      → manager.add_readyz_check name m ≡ (ok tt, m')
      → (webhook_at m' ≡ webhook_at m) × (controller_at m' ≡ controller_at m)
