-- ===== src/Wifi.antt =====
-- The WiFi transport and discovery of src/wifi.rs: the frames of its wire, the devices that are
-- advertised, and the runtimes that an environment keeps connected.
pub mod Frames
pub mod Device
pub mod Reconcile
pub mod Environment
pub mod Protocol
pub mod Session
pub mod Pairing
pub mod Mdns
mod Examples
mod Sessions
mod Packets
