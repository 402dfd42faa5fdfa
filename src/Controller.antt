-- ===== src/Controller.antt =====
-- internal/controller/projectresourcequota_controller.go.
pub mod Cluster
pub mod Strip
pub mod Usage
pub mod Reconcile
