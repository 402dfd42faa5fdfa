-- ===== src/Samples/Starts.antt =====
-- The theorems on `main`, with a manager that keeps what is registered with it.
use projectresourcequota.Prelude.{
  String, ◌≡◌, ◌≢◌, refl, sym, ap, subst, ◌∙◌, ◌⊎◌, inl, inr, Option, none, some, List,
}
use projectresourcequota.Prelude.Int.{ℤ}
use projectresourcequota.Api.Result.{ok}
use projectresourcequota.Startup.Manager.{Target, Payload, Webhook, Watch, Manager, IsRegistry}
use projectresourcequota.Startup.Setup.{
  default_flags, setup_with_manager, setup_project_resource_quota_webhook_with_manager,
  setup_pod_webhook_with_manager, setup_service_webhook_with_manager,
  setup_replication_controller_webhook_with_manager, setup_resource_quota_webhook_with_manager,
  setup_secret_webhook_with_manager, setup_config_map_webhook_with_manager,
  setup_persistent_volume_claim_webhook_with_manager, run, main,
}
use projectresourcequota.Startup.Handlers.{target_cases}
use projectresourcequota.Startup.Serves.{IsServing, main_serves}
use projectresourcequota.Samples.{exact, two_cpu}
use std.Path.{subst_refl}

Target-IsSet : IsSet Target
Target-IsSet = hlevel

-- A reconciler is only a name here.
record Register : Type 0 where
  webhooks : (t : Target) → Option (Webhook ℤ (Payload ℤ (Unit {0}) t))
  controller : Option (List (Watch (Unit {0})) × String)

abbrev entered :
    (t : Target)
    → Webhook ℤ (Payload ℤ (Unit {0}) t)
    → (other : Target) → (t ≡ other) ⊎ (t ≢ other)
    → Option (Webhook ℤ (Payload ℤ (Unit {0}) other))
    → Option (Webhook ℤ (Payload ℤ (Unit {0}) other))
entered t w other (inl same) old = some (subst (λ x. Webhook ℤ (Payload ℤ (Unit {0}) x)) same w)
entered t w other (inr differ) old = old

abbrev register : Manager ℤ (Unit {0}) String Register
register = record {
  new_manager = λ options. ok (record { webhooks = λ t. none; controller = none });
  complete_webhook = λ t w m. (
    ok tt,
    record m { webhooks = λ other. entered t w other (target_cases t other) (m.webhooks other) },
  );
  complete_controller = λ watches r m. (ok tt, record m { controller = some (watches, r) });
  add_healthz_check = λ name m. (ok tt, m);
  add_readyz_check = λ name m. (ok tt, m);
  start = λ m. ok tt;
}

entered-at :
    (t : Target) (w : Webhook ℤ (Payload ℤ (Unit {0}) t)) (c : (t ≡ t) ⊎ (t ≢ t))
    (old : Option (Webhook ℤ (Payload ℤ (Unit {0}) t)))
    → entered t w t c old ≡ some w
entered-at t w (inl same) old = ap some (
    ap (λ p. subst (λ x. Webhook ℤ (Payload ℤ (Unit {0}) x)) p w) (Target-IsSet t t same refl)
    ∙ subst_refl (λ x. Webhook ℤ (Payload ℤ (Unit {0}) x)) w)
entered-at t w (inr differ) old = absurd (differ refl)

entered-other :
    (t : Target) (w : Webhook ℤ (Payload ℤ (Unit {0}) t)) (other : Target)
    (c : (t ≡ other) ⊎ (t ≢ other)) (old : Option (Webhook ℤ (Payload ℤ (Unit {0}) other)))
    → t ≢ other
    → entered t w other c old ≡ old
entered-other t w other (inl same) old differ = absurd (differ same)
entered-other t w other (inr apart) old differ = refl

register-IsRegistry : IsRegistry register
register-IsRegistry = record {
  webhook_at = λ m. m.webhooks;
  controller_at = λ m. m.controller;
  webhook-at = λ t w m m' h.
      ap (λ p. p.1.webhooks t) (sym h) ∙ entered-at t w (target_cases t t) (m.webhooks t);
  webhook-other = λ t w m m' other h differ.
      ap (λ p. p.1.webhooks other) (sym h)
      ∙ entered-other t w other (target_cases t other) (m.webhooks other) differ;
  webhook-controller = λ t w m m' h. ap (λ p. p.1.controller) (sym h);
  controller-at = λ watches r m m' h. ap (λ p. p.1.controller) (sym h);
  healthz-keeps = λ name m m' h. (ap (λ p. p.1.webhooks) (sym h), ap (λ p. p.1.controller) (sym h));
  readyz-keeps = λ name m m' h. (ap (λ p. p.1.webhooks) (sym h), ap (λ p. p.1.controller) (sym h));
}

main_run : main two_cpu register "reconciler" default_flags ≡ 0
unfolding main run setup_with_manager setup_project_resource_quota_webhook_with_manager
    setup_pod_webhook_with_manager setup_service_webhook_with_manager
    setup_replication_controller_webhook_with_manager setup_resource_quota_webhook_with_manager
    setup_secret_webhook_with_manager setup_config_map_webhook_with_manager
    setup_persistent_volume_claim_webhook_with_manager
main_run = refl

main_serves_example : (m : Register) × IsServing two_cpu register register-IsRegistry "reconciler" m
main_serves_example =
    main_serves two_cpu register register-IsRegistry "reconciler" default_flags main_run
