-- ===== src/Tests.antt =====
-- Concrete runs of the model.
mod SampleWire
mod SampleStream
mod Search
mod Contacts
mod Relay
mod Ws
mod Handlers
mod Quic
mod QuicClient
mod Avatars
mod Entities
mod Worktree
mod DevSetup
mod Mobile
