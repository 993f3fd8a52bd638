-- ===== src/Client.antt =====
-- src/binaryServer: the classes of a client's session.
pub mod Cache
pub mod Requests
pub mod Notices
pub mod Model
