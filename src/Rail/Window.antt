-- ===== src/Rail/Window.antt =====
-- crates/ironrdp-rail/src/window.rs: Window Information Orders.
pub mod Reader
pub mod Order
pub mod Icon
pub mod Parse
pub mod Cursor
pub mod Fields
pub mod Sender
pub mod Flags
pub mod State
pub mod Pictures
pub mod Handled
pub mod RoundTrip
pub mod Loops
pub mod Alpha
pub mod Pixels
pub mod Total
mod Tests
