-- ===== src/Lib.antt =====
-- A model of epistl's API server (apps/api/src), of its QUIC client (packages/quic-relay-client) and of its
-- developer tools (packages/dev-setup), and what is proved of them.
--
-- The server relays end-to-end encrypted messages between users who are contacts. Its parts work
-- on a Postgres database, a registry of live connections and a NATS JetStream stream for messages
-- to users who are offline. A client talks to the HTTP handlers (contacts, search) and over a
-- WebSocket or QUIC to the relay; auth.rs finds the user of a request by its session token. The contact
-- handlers push frames through the registry, the relay asks the contacts table before it forwards
-- anything, and a new connection first gets what is queued.
--
-- The files, and the code that each models:
--   Prelude            names of the libraries passed on, Boolean tests, list functions and lemmas
--   Wire               JSON, UUID text, base64 and times, which are third-party crates: a record of
--                      operations with the laws that the code relies on
--   Http               the responses that every handler builds
--   Registry           apps/api/src/registry.rs; Registry.Lookups its lookups, Registry.Table the
--                      table that it implements
--   Db                 the tables of apps/api/migrations; Db.Session how a handler runs statements:
--                      `query`, `begin`, `execute`, `commit` and `autocommit` are the calls of sqlx,
--                      in a monad that stops at the first reply; Db.Session.Rules has one rule for
--                      each call, Db.Session.Atomic the contract of a handler that writes
--   Contacts           apps/api/src/contacts.rs: Contacts.Sql its statements, Contacts.Handlers its
--                      handlers by their names, in the child modules of that name; Accept, Befriending,
--                      Resolve, Remove, Create and Effects have proofs
--   Search             apps/api/src/search.rs: Search.RateLimiter the counter, Search.Like the
--                      pattern match of Postgres, Search.Users the handler and the middleware
--   Relay              apps/api/src/relay.rs: Relay.JetStream the stream, Relay.Frames the frames
--                      and the state, Relay.Sending client frames, Relay.Catchup the catch-up,
--                      Relay.Background the spawned tasks
--   Ws                 apps/api/src/ws.rs: a connection; Ws.World all of them as a step relation
--   Text               the functions of `str` on lists of code points; Text.Laws, Text.Lines, Text.Numbers
--   Worktree           apps/api/src/db.rs: the slug of a worktree, its database's name and URL
--                      (Worktree.Names, Worktree.Urls), Worktree.Prune what is created and dropped,
--                      Worktree.Orphans and Worktree.Statements proofs about it; Worktree.Streams
--                      apps/api/src/nats.rs and apps/api/src/bin/migrate.rs
--   DevSetup           packages/dev-setup/src: what its parts share; DevSetup.Packages pkg.rs, DevSetup.Docker
--                      tools/docker.rs, DevSetup.Start start.rs and the part of main.rs that calls it,
--                      DevSetup.Tools the other files of tools, DevSetup.Checks the report of checks.rs,
--                      DevSetup.Profile, DevSetup.EnvFile and DevSetup.Platform the files of those names,
--                      DevSetup.Mobile tools/android.rs and tools/ios.rs with DevSetup.Mobile.Majors and
--                      DevSetup.Mobile.Versions on the versions of Java, DevSetup.Paths paths,
--                      DevSetup.Main the whole run of main.rs
--   QuicClient         packages/quic-relay-client/src/lib.rs: the client's side; QuicClient.Connecting how
--                      a connection is made and written to, QuicClient.Reader its reader task and
--                      `close`, QuicClient.Callbacks what its listener is told, QuicClient.Progress that
--                      the task ends, QuicClient.Rejection which errors `connect` reports
--   Avatars            apps/api/src/avatars.rs: its three handlers; Avatars.Confirming how a confirmation ends
--   Quic               apps/api/src/quic.rs: a connection, and that it does what a WebSocket does;
--                      Quic.Endpoint how the listener starts
--   Keys, PushTokens, Account, Username, Messages
--                      apps/api/src/keys.rs, push_tokens.rs, account.rs, username.rs, messages.rs;
--                      Keys.Stored what an upsert stores, Messages.Scan what the look at the queue finds
--   Auth               apps/api/src/auth.rs: Auth.Bearer who is let in, Auth.Signup how sign-up ends,
--                      Auth.Entities the tables' rows as better-auth reads and writes them
--   Push               apps/api/src/push.rs: what a response of Expo's service becomes
--   Tests              runs of the model on concrete data
--
-- Conventions. UUIDs and channels are natural numbers: the program only compares them. A time is
-- the number of nanoseconds since some start. A statement of the database may fail, and a commit
-- that reports an error may have taken place (`Env.lands`); what other sessions commit between
-- the statements is a parameter (`Env.others`), so that a theorem on a handler holds for every
-- interleaving at READ COMMITTED. Rows are what the statements read or write of them. A send on
-- a channel fails exactly when its receiver is gone, as for tokio's unbounded channels; the
-- frames that were sent stay in the order of sending. A step of the relay (a client frame, a
-- catch-up, a task) runs without another step in between; `Ws.World.Step` interleaves whole steps.
-- Loops over lists recurse on them. The look at the queue (Messages.walk) makes at most 256 turns, as
-- the code does, and recurses on the turns left, and `wait_for_healthy` its 30 attempts likewise.
-- QuicClient.show_u64 has fuel for 20 digits, as many as a u64 has at most. No other fuel is used.
-- A reader task of the QUIC client is aborted only where it awaits; QuicClient.Reader.Step interleaves
-- its steps with calls of `close`.
--
-- Not modelled: routers and start-up (apps/api/src/main.rs, lib.rs, `build_auth`), how connections are
-- made (the pool in db.rs, the client in nats.rs) and the run of the migrations, the client of the object
-- store (avatars.rs), the configuration of quinn and rustls in quic-relay-client, what packages/dev-setup
-- prints and how it detects its host but for the distribution, and the mobile app, which is TypeScript.
pub mod Prelude
pub mod Wire
pub mod Registry
pub mod Http
pub mod Db
pub mod Contacts
pub mod Search
pub mod Relay
pub mod Ws
pub mod Quic
pub mod QuicClient
pub mod Keys
pub mod PushTokens
pub mod Account
pub mod Auth
pub mod Username
pub mod Avatars
pub mod Push
pub mod Messages
pub mod Text
pub mod Worktree
pub mod DevSetup
pub mod Tests
