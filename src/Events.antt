-- ===== src/Events.antt =====
-- src/events.rs: the event push socket.
pub mod Journal
pub mod Subscriber
pub mod Registry
pub mod Publish
