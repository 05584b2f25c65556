-- ===== src/Tests.antt =====
-- Runs on concrete inputs.
pub mod Sample
pub mod Reboot
pub mod Celery
pub mod Api
pub mod Commands
pub mod Json
pub mod Bugzilla
pub mod Actions
pub mod Dispatch
pub mod Config
