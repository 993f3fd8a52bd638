-- ===== src/Ua.antt =====
-- src/sasModelProvider/base: the conversion between OPC UA values and the data providers' values.
pub mod Sdk
pub mod ToUa
pub mod ToIo
pub mod NodeIds
pub mod Scalars
pub mod Memory
mod Tests
