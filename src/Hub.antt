-- ===== src/Hub.antt =====
-- The hub (hub): what it does with the events of an adapter.
pub mod Batcher
pub mod Dispatcher
