-- ===== src/Startup/Sequence.antt =====
-- What `run` does with a manager, in a row.
use projectresourcequota.Prelude.{◌≡◌, refl, List, [], ◌∷◌}
use projectresourcequota.Quantity.{Quantity}
use projectresourcequota.Webhook.Pod.{PodResources}
use projectresourcequota.Controller.Cluster.{Action, reads, ◌>>◌}
use projectresourcequota.Startup.Manager.{Target, Manager}
use projectresourcequota.Startup.Setup.{
  setup_with_manager, setup_project_resource_quota_webhook_with_manager,
  setup_pod_webhook_with_manager, setup_service_webhook_with_manager,
  setup_replication_controller_webhook_with_manager, setup_resource_quota_webhook_with_manager,
  setup_secret_webhook_with_manager, setup_config_map_webhook_with_manager,
  setup_persistent_volume_claim_webhook_with_manager, run,
}
use projectresourcequota.Startup.Handlers.{targets, webhook_of}

module _ {Q B R M : Type 0} ⦃q : Quantity Q⦄ (helper : PodResources Q B)
    (manager : Manager Q B R M) where
  -- The rest of `run` after the webhooks.
  abbrev pub finish : Action Q M (Unit {0})
  finish = do
    manager.add_healthz_check "healthz"
    manager.add_readyz_check "readyz"
    reads manager.start

  unfoldable pub register_then : List Target → Action Q M (Unit {0}) → Action Q M (Unit {0})
  register_then [] rest = rest
  register_then (t ∷ later) rest =
      manager.complete_webhook t (webhook_of helper t) >> register_then later rest

  pub run_lem :
      (r : R)
      → run helper manager r ≡ (setup_with_manager helper manager r >> register_then targets finish)
  unfolding run register_then setup_project_resource_quota_webhook_with_manager
      setup_pod_webhook_with_manager setup_service_webhook_with_manager
      setup_replication_controller_webhook_with_manager setup_resource_quota_webhook_with_manager
      setup_secret_webhook_with_manager setup_config_map_webhook_with_manager
      setup_persistent_volume_claim_webhook_with_manager
  run_lem r = refl
