-- ===== src/Events.antt =====
-- The transactional outbox: committed events and their publication (events/).
pub mod Outbox
pub mod Dispatcher
pub mod Delivery
pub mod Dispatched
pub mod Delay
