-- ===== src/Webhook.antt =====
-- The admission webhooks (api/v1/*_webhook.go). A `Default` method may write to the object that it
-- is handed, so it returns the object; a `Validate…` method accepts or refuses. The warnings that a
-- method returns beside its error are nil on every path and are not modelled, nor is logging.
-- The webhooks of the seven kinds repeat two loops, which stand in `Annotator` and `Counting`.
pub mod Annotator
pub mod Counting
pub mod ConfigMap
pub mod PersistentVolumeClaim
pub mod ReplicationController
pub mod ResourceQuota
pub mod Secret
pub mod Pod
pub mod Service
pub mod Project
