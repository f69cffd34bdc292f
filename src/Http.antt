-- ===== src/Http.antt =====
-- The HTTP front of http/: requests, the incremental parser, responses and the server's handlers.
-- The readable bytes of a `Buffer` are a list, the first one the next to be read.
pub mod Bytes
pub mod Request
pub mod Context
pub mod Response
pub mod Server
mod Tests
