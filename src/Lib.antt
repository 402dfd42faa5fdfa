-- ===== src/Lib.antt =====
-- Project resource quotas over several namespaces of a Kubernetes cluster.
--
-- The program enforces resource quotas that span namespaces. A custom resource
-- (ProjectResourceQuota, "project" below) lists namespaces and limits. Mutating webhooks annotate a
-- new object with the project that owns its namespace; validating webhooks compare the usage in
-- the status of that project with its limits; a controller recounts the usage into the status, and
-- takes annotations away when namespaces leave a project or the project is deleted. The parts meet
-- in the annotation, in the status, and in the finalizer that the webhook of the custom resource
-- adds and the controller removes.
--
-- Which file models what:
--   Api, Api/Names: api/v1/projectresourcequota_types.go, api/v1/common.go, and of the API objects
--     the metadata, the phase of a pod and the type of a service.
--   Api/Result: the errors of the handlers, by what their messages name.
--   Util and its children: api/v1/util.go (AddFinalizer is add_finalizer, and so on).
--   Webhook/Annotator: the Default methods of api/v1/configmap_webhook.go and the six like it,
--     which differ in the resource only; Webhook/Annotator/Owner: which project annotates.
--   Webhook/Counting: ValidateCreate of the kinds that have only a count. Webhook/ConfigMap,
--     Webhook/PersistentVolumeClaim, Webhook/ReplicationController, Webhook/ResourceQuota and
--     Webhook/Secret are those webhooks; Webhook/Counting/Admission puts the two webhooks in a row.
--   Webhook/Pod: api/v1/pod_webhook.go (checkQuota is check_quota, its table is checks).
--   Webhook/Service: api/v1/service_webhook.go.
--   Webhook/Project: api/v1/projectresourcequota_webhook.go; Webhook/Project/Registry is the list
--     of projects as a state machine whose steps pass these webhooks, whose reader (a cached
--     client) may be behind the list.
--   Controller/Cluster: the client of the controller, and Controller/Cluster/Laws what is relied
--     on in it. Controller/Strip: removeAnnotationFromObjects. Controller/Usage: the counting loops
--     of Reconcile, addResourceList and isPodTerminated; Controller/Usage/Counts describes by rows
--     what the resources count. Controller/Reconcile: Reconcile and findObjects; its children say
--     what a reconciliation does when it succeeds (Outcome), when it fails (Failure), when it is
--     repeated (Settled), and what the webhooks make of its status (Enforced). All are of
--     internal/controller/projectresourcequota_controller.go.
--     Controller/Strip/Refused and Controller/Reconcile/Blocked put the controller and the service
--     webhook together: whether the API server accepts that an annotation goes.
--   Startup/Setup: cmd/main.go from the flags to the exit code, SetupWithManager, and the eight
--     Setup functions of the webhooks; Startup/Manager is the manager they register with,
--     Startup/Handlers what is to be registered, Startup/Sequence the calls of run in a row, and
--     Startup/Serves what main does.
--   Quota: the webhooks and the controller together over a history of creations, deletions and
--     reconciliations (Quota/History); Quota/Admitted, Quota/Tally and Quota/Recounted are what a
--     creation and a reconciliation do to the number of objects, Quota/Bounded is about how many
--     there can be; Quota/Compute, Quota/Asked and Quota/Kept are the same for what pods ask for;
--     Quota/Sums is shared.
--   Memory: the memory behind slices and maps; Memory/DeepCopy: api/v1/zz_generated.deepcopy.go
--     (DeepCopyInto is spec_deep_copy_into and so on); Memory/Copied, Memory/Apart and
--     Memory/Projects are about what the copies share.
--   Prelude, Dict, Quantity: shared notions, Go maps, and amounts. Samples: concrete values, at
--     which the theorems are applied.
--
-- Every loop of the program is over a list that it has in hand, so all loops are structural
-- recursions and there is no fuel. Quantities are unbounded integers of billionths of a unit,
-- which is what the package of quantities computes with; no machine integer can wrap.
--
-- Parameters stand for code that is not part of the repository: Quantity for resource.Quantity,
-- Accessor for meta.Accessor, Reader and Client for the clients of controller-runtime,
-- PodResources for the sums over the containers of a pod (component-helpers), StringSets for
-- sets.String, and Manager for the manager of controller-runtime. Their laws are fields of these
-- records, or of IsStore, IsReliable, IsStatusStore, IsReading, IsAdmitting and IsRegistry.
-- A Go map is an association list in the order in which a range visits it; Dict/Order says when two
-- lists are the same map, and Controller/Usage/Order is about the order.
--
-- Not modelled: the scheme (init of cmd/main.go, api/v1/groupversion_info.go), the parsing of the
-- flags, the predicates on resource versions, which are calls of libraries; logging; texts of
-- messages; writes of others between the calls of one reconciliation. Outside Memory, a deep copy
-- of a value is the value.
pub mod Prelude
pub mod Dict
pub mod Quantity
pub mod Api
pub mod Util
pub mod Webhook
pub mod Controller
pub mod Startup
pub mod Quota
pub mod Memory
pub mod Samples
