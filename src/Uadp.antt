-- ===== src/Uadp.antt =====
-- lib/uadp-encoder.js: the UADP binary codec.
pub mod Result
pub mod Bytes
pub mod Stream
pub mod Text
pub mod Guid
pub mod DateTime
pub mod Variant
pub mod DataValue
pub mod DataSet
pub mod Network
pub mod Wire
mod Tests
