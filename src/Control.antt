-- ===== src/Control.antt =====
-- The control plane (control/): the pools, the PID controller, the autoscaler and the router.
pub mod Pool
pub mod Pid
pub mod Autoscaler
pub mod Router
