-- ===== src/Contacts.antt =====
-- apps/api/src/contacts.rs: contacts, contact requests, and the pushes to the other party.
pub mod Sql
pub mod Handlers
mod Rules
pub mod Accept
pub mod Resolve
pub mod Remove
pub mod Create
pub mod Effects
pub mod Befriending
