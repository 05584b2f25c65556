-- ===== src/Reboot.antt =====
-- relops_hardware_controller/api/management/commands/reboot.py. `Wait` has the polling loop,
-- `Methods` the arguments of each reboot method, `Handle` the loop over the methods.
pub mod Wait
pub mod Methods
pub mod Handle
