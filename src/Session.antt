-- ===== src/Session.antt =====
-- wasm/src/session.rs, the connection. `Wire` is the socket as its reader (Framed), what was sent on it,
-- and how much more it takes; `Tls` is the upgrade that the relay does, and `Upgrade` sets the client's
-- side beside the relay's (Relay). `Ends` and `Done` are about the parts of a do block, `Rounds` is about
-- `Credssp`, and `Extends`, `Quiet`, `Parts`, `Exchange` and `Handover` about `Redirected`.
pub mod Wire
pub mod Tls
pub mod Upgrade
pub mod Ends
pub mod Done
pub mod Credssp
pub mod Rounds
pub mod Connection
pub mod Redirected
pub mod Extends
pub mod Quiet
pub mod Parts
pub mod Exchange
pub mod Handover
mod Tests
