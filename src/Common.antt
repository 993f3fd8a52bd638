-- ===== src/Common.antt =====
-- The exceptions and the logger registry that every part of the server uses.
pub mod Exception
pub mod LoggerFactory
