-- ===== src/Commands.antt =====
-- The Django management commands of relops_hardware_controller/api/management/commands.
pub mod Runner
pub mod Arguments
pub mod Ping
pub mod SshReboot
pub mod SnmpReboot
pub mod IloReboot
pub mod XenapiReboot
pub mod Ipmitool
pub mod Ipmi
pub mod FileBugzillaBug
pub mod RegisterTcActions
