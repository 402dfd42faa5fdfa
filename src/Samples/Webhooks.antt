-- ===== src/Samples/Webhooks.antt =====
-- The theorems on the webhooks of the namespaced kinds, at the samples.
use projectresourcequota.Prelude.{◌≡◌, ◌≢◌, refl, ◌↔◌, ◌+◌, ◌≤◌, none, some, [], ◌∷◌, All, arith}
use projectresourcequota.Prelude.Int.{ℤ, ◌+ℤ◌}
use projectresourcequota.Dict.{lookup}
use projectresourcequota.Api.Names.{
  resource_config_maps, resource_persistent_volume_claims, resource_replication_controllers,
  resource_quotas, resource_secrets, resource_services, resource_cpu, resource_services_node_ports,
  project_resource_quota_annotation,
}
use projectresourcequota.Api.{Object, Pod, Service}
use projectresourcequota.Api.Client.{Reader}
use projectresourcequota.Api.Result.{ok, err, over_quota, missing_annotation, ◌>>=◌, ◌>>◌}
use projectresourcequota.Util.{object_accessor, add_annotation}
use projectresourcequota.Webhook.Annotator.{annotate_first}
use projectresourcequota.Webhook.Annotator.Owner.{annotate_first_owner, annotate_first_foreign}
use projectresourcequota.Webhook.Counting.{annotated_project, count_create, at}
use projectresourcequota.Webhook.Counting.Limit.{HasRoom}
use projectresourcequota.Webhook.Counting.Verdicts.{
  verdict_of, validate_create_decides, count_create_whole,
}
use projectresourcequota.Webhook.Counting.Admission.{admit, annotated_with, admit_owner}
use projectresourcequota.Webhook.Service.Unmanaged.{unmanaged_service}
use projectresourcequota.Controller.Reconcile.{find_objects}
use projectresourcequota.Controller.Usage.{pod_charges}
use projectresourcequota.Controller.Usage.Agreement.{checks-pod_charges}
use projectresourcequota.Webhook.ConfigMap
use projectresourcequota.Webhook.PersistentVolumeClaim
use projectresourcequota.Webhook.ReplicationController
use projectresourcequota.Webhook.ResourceQuota
use projectresourcequota.Webhook.Secret
use projectresourcequota.Webhook.Pod
use projectresourcequota.Webhook.Pod.{checks}
use projectresourcequota.Webhook.Pod.Fits.{
  PodFits, validate_create-PodFits, validate_create_first, validate_create_unlimited,
}
use projectresourcequota.Webhook.Service
use projectresourcequota.Webhook.Service.Verdicts.{service_create_iff, service_update_iff}
use projectresourcequota.Samples.{
  exact, whole, meta_of, annotated_meta, plain, pod_of, service_of, two_cpu, reader_of, team_busy,
  team_c, team_a, team_b, teams, teams-IsPartition,
}

abbrev fresh : Object (Unit {0})
fresh = plain (meta_of "x" "a2")

abbrev owned : Object (Unit {0})
owned = plain (annotated_meta "x" "a2" "a")

owned-annotated : annotated_project owned ≡ some "a"
unfolding annotated_project lookup
owned-annotated = refl

annotate_first_owner_example :
    annotate_first resource_config_maps teams fresh
    ≡ add_annotation fresh project_resource_quota_annotation "a"
unfolding lookup
annotate_first_owner_example =
    annotate_first_owner resource_config_maps teams fresh (team_b ∷ []) team_a [] refl
      teams-IsPartition refl

abbrev stray : Object (Unit {0})
stray = plain (meta_of "x" "z")

annotate_first_foreign_example : annotate_first resource_config_maps teams stray ≡ ok stray
annotate_first_foreign_example =
    annotate_first_foreign resource_config_maps teams stray (team_b ∷ team_a ∷ []) refl
      (refl, (refl, tt))

validate_create_decides_example :
    (ConfigMap.validate_create teams owned ≡ ok tt)
    × (PersistentVolumeClaim.validate_create teams owned
        ≡ verdict_of resource_persistent_volume_claims team_a)
    × (ReplicationController.validate_create teams owned
        ≡ verdict_of resource_replication_controllers team_a)
    × (ResourceQuota.validate_create teams owned ≡ verdict_of resource_quotas team_a)
    × (Secret.validate_create teams owned ≡ verdict_of resource_secrets team_a)
unfolding at lookup
validate_create_decides_example = validate_create_decides teams owned owned-annotated refl

count_create_whole_example : (count_create resource_config_maps teams owned ≡ ok tt) ↔ (1 + 1 ≤ 3)
unfolding at lookup
count_create_whole_example =
    count_create_whole teams owned owned-annotated refl resource_config_maps 1 3 refl refl

abbrev pod_in_a : Pod (Unit {0})
pod_in_a = pod_of (annotated_meta "p" "a1" "a")

abbrev np_in_a : Service (Unit {0})
np_in_a = service_of (annotated_meta "s" "a1" "a") "NodePort"

pod-annotated : annotated_project pod_in_a ≡ some "a"
unfolding annotated_project lookup
pod-annotated = refl

service-annotated : annotated_project np_in_a ≡ some "a"
unfolding annotated_project lookup
service-annotated = refl

validate_create-PodFits_example :
    (Pod.validate_create two_cpu teams pod_in_a ≡ ok tt)
    ↔ PodFits team_a (two_cpu.pod_requests pod_in_a) (two_cpu.pod_limits pod_in_a)
validate_create-PodFits_example = validate_create-PodFits two_cpu teams pod_in_a pod-annotated refl

-- A project with two pods of two units of cpu each, and a limit of five.
abbrev busy : Reader ℤ
busy = reader_of (team_busy ∷ [])

validate_create_first_example :
    Pod.validate_create two_cpu busy pod_in_a
    ≡ err (over_quota resource_cpu (whole 2) (whole 4) (whole 5))
unfolding checks at lookup ◌+ℤ◌
validate_create_first_example =
    validate_create_first two_cpu busy pod_in_a pod-annotated refl [] resource_cpu (whole 2) _
      (omega arith) refl tt (omega arith)

-- In a project that limits pods and no cpu, a pod that requests cpu is refused.
validate_create_unlimited_example :
    Pod.validate_create two_cpu (reader_of (team_c ∷ [])) pod_in_a ≢ ok tt
unfolding checks at lookup
validate_create_unlimited_example =
    validate_create_unlimited two_cpu (reader_of (team_c ∷ [])) pod_in_a pod-annotated refl []
      resource_cpu (whole 2) _ refl refl (omega arith) (omega arith)

service_create_iff_example :
    (Service.validate_create teams np_in_a ≡ ok tt)
    ↔ (HasRoom resource_services team_a × HasRoom resource_services_node_ports team_a)
service_create_iff_example = service_create_iff teams np_in_a service-annotated refl

service_update_iff_example :
    (Service.validate_update teams (service_of (meta_of "s" "a1") "ClusterIP") np_in_a ≡ ok tt)
    ↔ (HasRoom resource_services team_a × HasRoom resource_services_node_ports team_a)
service_update_iff_example =
    service_update_iff teams (service_of (meta_of "s" "a1") "ClusterIP") np_in_a service-annotated
      refl

unannotated : annotated_project fresh ≡ none
unfolding annotated_project lookup
unannotated = refl

abbrev outside : Service (Unit {0})
outside = service_of (meta_of "s" "c") "ClusterIP"

outside-annotated : annotated_project outside ≡ none
unfolding annotated_project lookup
outside-annotated = refl

admit_owner_example :
    (admit resource_config_maps teams fresh
      ≡ (verdict_of resource_config_maps team_a >> ok (annotated_with fresh "a")))
    × (find_objects (annotated_with fresh "a") ≡ "a" ∷ [])
unfolding lookup
admit_owner_example =
    admit_owner resource_config_maps teams fresh (team_b ∷ []) team_a [] refl refl teams-IsPartition
      refl unannotated

unmanaged_service_example :
    ((Service.default teams outside >>= λ svc. Service.validate_create teams svc >> ok svc)
      ≡ ok outside)
    × ((old_svc : Service (Unit {0}))
        → (Service.default teams outside >>= λ svc. Service.validate_update teams old_svc svc)
          ≡ err (missing_annotation "project-resource-quota"))
unmanaged_service_example =
    unmanaged_service teams outside (team_b ∷ team_a ∷ []) refl (refl, (refl, tt)) outside-annotated

checks-pod_charges_example :
    All
      (λ check. lookup check.0 (pod_charges (two_cpu.pod_requests pod_in_a) []) ≡ some check.1)
      (checks (two_cpu.pod_requests pod_in_a) [])
    × All
        (λ charge. lookup charge.0 (checks (two_cpu.pod_requests pod_in_a) []) ≡ some charge.1)
        (pod_charges (two_cpu.pod_requests pod_in_a) [])
checks-pod_charges_example = checks-pod_charges (two_cpu.pod_requests pod_in_a) []
