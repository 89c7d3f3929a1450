-- ===== src/Adapter.antt =====
-- The adapter core (adapter/core): the components of one supervised Session.
pub mod State
pub mod Credential
pub mod Rotation
pub mod Supervisor
pub mod Connection
pub mod Worker
pub mod Group
