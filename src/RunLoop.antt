-- ===== src/RunLoop.antt =====
-- wasm/src/session.rs, the session's loop: `run_session`. `Stage` is the packages' side, `Windows` the
-- page's window manager (wasm/src/rail.rs), `Loop` the state and what a part of the loop comes to,
-- `Output` the handling of outputs, `Input` that of inputs, `Turn` the loop. `Kept`, `Handed`,
-- `Sources` and `Redirected` are about the pending redirection, `Suppressed` about the legacy framebuffer,
-- `Announced` about the windows.
pub mod Stage
pub mod Windows
pub mod Loop
pub mod Output
pub mod Input
pub mod Turn
pub mod Kept
pub mod Handed
pub mod Sources
pub mod Redirected
pub mod Suppressed
pub mod Announced
mod Tests
