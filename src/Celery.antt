-- ===== src/Celery.antt =====
-- relops_hardware_controller/celery.py, the task that the queue runs. `Search` has the
-- domains of the resolver, `Username` the regular
-- expression for the client id, `Notify` the messages that are sent, `Task` the task.
pub mod Search
pub mod Username
pub mod Notify
pub mod Task
