-- ===== src/Startup.antt =====
-- cmd/main.go, the `Setup…WithManager` functions of api/v1 and the `SetupWithManager` of
-- internal/controller/projectresourcequota_controller.go.
pub mod Manager
pub mod Setup
pub mod Handlers
pub mod Sequence
pub mod Serves
