-- ===== src/Message.antt =====
-- The protocol types of src/message.rs, by the resource that they belong to.
pub mod Values
pub mod Topology
pub mod Network
pub mod Host
pub mod Fixture
pub mod Source
pub mod Emitter
pub mod Runtime
pub mod Environment
pub mod Envelope
mod Examples
