-- ===== src/StateMachine.antt =====
-- engine/state_machine.rs: the lifecycle of a transaction and the rollback controller.
pub mod Status
pub mod Policy
pub mod Controller
