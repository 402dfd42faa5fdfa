-- ===== src/Startup/Setup.antt =====
-- What `main` registers, and in which order it builds and starts the manager.
use projectresourcequota.Prelude.{ℕ, String, Bool, false, List, [], ◌∷◌}
use projectresourcequota.Quantity.{Quantity}
use projectresourcequota.Api.{Kind}
use projectresourcequota.Api.Result.{Result, Verdict, ok, err}
use projectresourcequota.Webhook.ConfigMap
use projectresourcequota.Webhook.PersistentVolumeClaim
use projectresourcequota.Webhook.ReplicationController
use projectresourcequota.Webhook.ResourceQuota
use projectresourcequota.Webhook.Secret
use projectresourcequota.Webhook.Pod
use projectresourcequota.Webhook.Pod.{PodResources}
use projectresourcequota.Webhook.Service
use projectresourcequota.Webhook.Project
use projectresourcequota.Controller.Cluster.{Action, reads, ◌>>◌}
use projectresourcequota.Controller.Reconcile.{find_objects}
use projectresourcequota.Startup.Manager.{Target, Watch, Options, Manager}

-- The variables that the flags set, with the defaults of `main`.
pub record Flags : Type 0 where
  pub metrics_addr : String
  pub probe_addr : String
  pub enable_leader_election : Bool

abbrev pub default_flags : Flags
default_flags = record {
  metrics_addr = ":8080";
  probe_addr = ":8081";
  enable_leader_election = false;
}

abbrev pub options_of : Flags → Options
options_of flags = record {
  metrics_bind_address = flags.metrics_addr;
  health_probe_bind_address = flags.probe_addr;
  leader_election = flags.enable_leader_election;
  leader_election_id = "0485bf9f.jenting.io";
}

-- `Watches(&corev1.ConfigMap{}, handler.EnqueueRequestsFromMapFunc(r.findObjects), …)` and the like
abbrev pub watch_of : {B : Type 0} → Kind → Watch B
watch_of kind = record { kind = kind; requests = λ k. find_objects }

module _ {Q B R M : Type 0} ⦃q : Quantity Q⦄ (helper : PodResources Q B)
    (manager : Manager Q B R M) where
  unfoldable pub setup_project_resource_quota_webhook_with_manager : Action Q M (Unit {0})
  setup_project_resource_quota_webhook_with_manager =
      manager.complete_webhook Target.project (record {
        default = λ reader. Project.default;
        validate_create = Project.validate_create;
        validate_update = Project.validate_update;
        validate_delete = Project.validate_delete;
      })

  unfoldable pub setup_pod_webhook_with_manager : Action Q M (Unit {0})
  setup_pod_webhook_with_manager = manager.complete_webhook (Target.objects Kind.pod) (record {
    default = Pod.default;
    validate_create = Pod.validate_create helper;
    validate_update = Pod.validate_update;
    validate_delete = Pod.validate_delete;
  })

  unfoldable pub setup_service_webhook_with_manager : Action Q M (Unit {0})
  setup_service_webhook_with_manager =
      manager.complete_webhook (Target.objects Kind.service) (record {
        default = Service.default;
        validate_create = Service.validate_create;
        validate_update = Service.validate_update;
        validate_delete = Service.validate_delete;
      })

  unfoldable pub setup_replication_controller_webhook_with_manager : Action Q M (Unit {0})
  setup_replication_controller_webhook_with_manager =
      manager.complete_webhook (Target.objects Kind.replication_controller) (record {
        default = ReplicationController.default;
        validate_create = ReplicationController.validate_create;
        validate_update = ReplicationController.validate_update;
        validate_delete = ReplicationController.validate_delete;
      })

  unfoldable pub setup_resource_quota_webhook_with_manager : Action Q M (Unit {0})
  setup_resource_quota_webhook_with_manager =
      manager.complete_webhook (Target.objects Kind.resource_quota) (record {
        default = ResourceQuota.default;
        validate_create = ResourceQuota.validate_create;
        validate_update = ResourceQuota.validate_update;
        validate_delete = ResourceQuota.validate_delete;
      })

  unfoldable pub setup_secret_webhook_with_manager : Action Q M (Unit {0})
  setup_secret_webhook_with_manager =
      manager.complete_webhook (Target.objects Kind.secret) (record {
        default = Secret.default;
        validate_create = Secret.validate_create;
        validate_update = Secret.validate_update;
        validate_delete = Secret.validate_delete;
      })

  unfoldable pub setup_config_map_webhook_with_manager : Action Q M (Unit {0})
  setup_config_map_webhook_with_manager =
      manager.complete_webhook (Target.objects Kind.config_map) (record {
        default = ConfigMap.default;
        validate_create = ConfigMap.validate_create;
        validate_update = ConfigMap.validate_update;
        validate_delete = ConfigMap.validate_delete;
      })

  unfoldable pub setup_persistent_volume_claim_webhook_with_manager : Action Q M (Unit {0})
  setup_persistent_volume_claim_webhook_with_manager =
      manager.complete_webhook (Target.objects Kind.persistent_volume_claim) (record {
        default = PersistentVolumeClaim.default;
        validate_create = PersistentVolumeClaim.validate_create;
        validate_update = PersistentVolumeClaim.validate_update;
        validate_delete = PersistentVolumeClaim.validate_delete;
      })

  -- The chain of `Watches`; a change of a project itself is `For`.
  abbrev pub watches : List (Watch B)
  watches =
      watch_of Kind.config_map
      ∷ watch_of Kind.persistent_volume_claim
      ∷ watch_of Kind.pod
      ∷ watch_of Kind.replication_controller
      ∷ watch_of Kind.resource_quota
      ∷ watch_of Kind.secret
      ∷ watch_of Kind.service
      ∷ []

  unfoldable pub setup_with_manager : R → Action Q M (Unit {0})
  setup_with_manager r = manager.complete_controller watches r

  -- What `main` does once it has a manager.
  unfoldable pub run : R → Action Q M (Unit {0})
  unfolding setup_with_manager
  run r = do
    setup_with_manager r
    setup_project_resource_quota_webhook_with_manager
    setup_pod_webhook_with_manager
    setup_service_webhook_with_manager
    setup_replication_controller_webhook_with_manager
    setup_resource_quota_webhook_with_manager
    setup_secret_webhook_with_manager
    setup_config_map_webhook_with_manager
    setup_persistent_volume_claim_webhook_with_manager
    manager.add_healthz_check "healthz"
    manager.add_readyz_check "readyz"
    reads manager.start

  -- `os.Exit(1)` after an error, and else the end of `main`.
  abbrev pub exit_code : Verdict Q → ℕ
  exit_code (ok tt) = 0
  exit_code (err e) = 1

  abbrev pub main_with : R → Result Q M → ℕ
  main_with r (err e) = 1
  main_with r (ok mgr) = exit_code (run r mgr).0

  unfoldable pub main : R → Flags → ℕ
  main r flags = main_with r (manager.new_manager (options_of flags))
