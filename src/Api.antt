-- ===== src/Api.antt =====
-- relops_hardware_controller/api: the web API that authenticates a request and queues a job.
pub mod Authentication
pub mod Permissions
pub mod Decorators
pub mod Serializers
pub mod Views
pub mod Routes
pub mod Server
