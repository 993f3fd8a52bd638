-- ===== src/Binary.antt =====
-- src/provider/binary/messages: the messages of the binary provider and their conversion.
pub mod Dto
pub mod ParamId
pub mod Converter
