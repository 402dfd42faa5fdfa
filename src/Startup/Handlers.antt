-- ===== src/Startup/Handlers.antt =====
-- The eight targets of webhooks, and the handlers that are written for each.
use projectresourcequota.Prelude.{◌≡◌, ◌≢◌, refl, ap, ◌⊎◌, inl, inr, List, [], ◌∷◌, All}
use projectresourcequota.Quantity.{Quantity}
use projectresourcequota.Api.{Kind}
use projectresourcequota.Webhook.ConfigMap
use projectresourcequota.Webhook.PersistentVolumeClaim
use projectresourcequota.Webhook.ReplicationController
use projectresourcequota.Webhook.ResourceQuota
use projectresourcequota.Webhook.Secret
use projectresourcequota.Webhook.Pod
use projectresourcequota.Webhook.Pod.{PodResources}
use projectresourcequota.Webhook.Service
use projectresourcequota.Webhook.Project
use projectresourcequota.Controller.Cluster.Laws.{kind_cases}
use projectresourcequota.Startup.Manager.{Target, Payload, Webhook}

objects_injective : (k other : Kind) → Target.objects k ≡ Target.objects other → k ≡ other
objects_injective k other e = cc

pub target_cases : (t other : Target) → (t ≡ other) ⊎ (t ≢ other)
target_cases Target.project Target.project = inl refl
target_cases Target.project (Target.objects k) = inr (λ e. cc)
target_cases (Target.objects k) Target.project = inr (λ e. cc)
target_cases (Target.objects k) (Target.objects other) = elim (kind_cases k other) [
  | inl same ↦ inl (ap Target.objects same)
  | inr differ ↦ inr (λ e. differ (objects_injective k other e))
]

abbrev pub targets : List Target
targets =
    Target.project
    ∷ Target.objects Kind.pod
    ∷ Target.objects Kind.service
    ∷ Target.objects Kind.replication_controller
    ∷ Target.objects Kind.resource_quota
    ∷ Target.objects Kind.secret
    ∷ Target.objects Kind.config_map
    ∷ Target.objects Kind.persistent_volume_claim
    ∷ []

pub every_target : (P : Target → Type 0) → All P targets → (t : Target) → P t
every_target P h Target.project = h.0
every_target P h (Target.objects Kind.pod) = h.1.0
every_target P h (Target.objects Kind.service) = h.1.1.0
every_target P h (Target.objects Kind.replication_controller) = h.1.1.1.0
every_target P h (Target.objects Kind.resource_quota) = h.1.1.1.1.0
every_target P h (Target.objects Kind.secret) = h.1.1.1.1.1.0
every_target P h (Target.objects Kind.config_map) = h.1.1.1.1.1.1.0
every_target P h (Target.objects Kind.persistent_volume_claim) = h.1.1.1.1.1.1.1.0

module _ {Q B : Type 0} ⦃q : Quantity Q⦄ (helper : PodResources Q B) where
  -- The webhook that serves a target.
  abbrev pub webhook_of : (t : Target) → Webhook Q (Payload Q B t)
  webhook_of Target.project = record {
    default = λ reader. Project.default;
    validate_create = Project.validate_create;
    validate_update = Project.validate_update;
    validate_delete = Project.validate_delete;
  }
  webhook_of (Target.objects Kind.pod) = record {
    default = Pod.default;
    validate_create = Pod.validate_create helper;
    validate_update = Pod.validate_update;
    validate_delete = Pod.validate_delete;
  }
  webhook_of (Target.objects Kind.service) = record {
    default = Service.default;
    validate_create = Service.validate_create;
    validate_update = Service.validate_update;
    validate_delete = Service.validate_delete;
  }
  webhook_of (Target.objects Kind.replication_controller) = record {
    default = ReplicationController.default;
    validate_create = ReplicationController.validate_create;
    validate_update = ReplicationController.validate_update;
    validate_delete = ReplicationController.validate_delete;
  }
  webhook_of (Target.objects Kind.resource_quota) = record {
    default = ResourceQuota.default;
    validate_create = ResourceQuota.validate_create;
    validate_update = ResourceQuota.validate_update;
    validate_delete = ResourceQuota.validate_delete;
  }
  webhook_of (Target.objects Kind.secret) = record {
    default = Secret.default;
    validate_create = Secret.validate_create;
    validate_update = Secret.validate_update;
    validate_delete = Secret.validate_delete;
  }
  webhook_of (Target.objects Kind.config_map) = record {
    default = ConfigMap.default;
    validate_create = ConfigMap.validate_create;
    validate_update = ConfigMap.validate_update;
    validate_delete = ConfigMap.validate_delete;
  }
  webhook_of (Target.objects Kind.persistent_volume_claim) = record {
    default = PersistentVolumeClaim.default;
    validate_create = PersistentVolumeClaim.validate_create;
    validate_update = PersistentVolumeClaim.validate_update;
    validate_delete = PersistentVolumeClaim.validate_delete;
  }
