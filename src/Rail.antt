-- ===== src/Rail.antt =====
-- crates/ironrdp-rail: RemoteApp support. `Wire` is the part of ironrdp_core that the crate uses,
-- `Pdu` is src/pdu.rs, `Client` src/client.rs and `Window` src/window.rs.
pub mod Wire
pub mod Pdu
pub mod Client
pub mod Window
mod Tests
