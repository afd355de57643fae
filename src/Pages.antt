-- ===== src/Pages.antt =====
-- server/src/main.rs: the pages that the server gives. `Catalogue` is the list of applications that it
-- publishes, `Embedded` the handler of the embedded files; `Literal`, `Script` and `Published` are about what the
-- page reads of the list, `Revalidated` about the browser's cache.
pub mod Catalogue
pub mod Embedded
pub mod Literal
pub mod Written
pub mod Script
pub mod Published
pub mod Revalidated
mod Tests
