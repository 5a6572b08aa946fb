-- ===== src/Capture.antt =====
-- internal/capture: the PostgreSQL wire protocol observed in both directions of a connection.
-- `Wire` reads fields, `Framer` reassembles messages, `Message` parses their bodies, `Session` keeps
-- the state of one connection.
pub mod Wire
pub mod Framer
pub mod Base64
pub mod Recorder
pub mod Proxy
pub mod Message
pub mod Oid
pub mod Session
mod Tests
