-- ===== src/Contacts/Handlers.antt =====
-- The handlers of apps/api/src/contacts.rs, statement by statement. `Ok(None)` and `Err` of a
-- query are `some none` and `none`.
pub mod Frames
pub mod Direct
pub mod Creation
pub mod Resolution
unfoldable pub use Frames.*
unfoldable pub use Direct.*
unfoldable pub use Creation.*
unfoldable pub use Resolution.*
