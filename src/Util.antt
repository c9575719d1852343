-- ===== src/Util.antt =====
-- macho/util/mod.rs: alignment and bit fields, LEB128 numbers, and byte strings.
pub mod Align
pub mod Glob
pub mod Leb
pub mod Names
pub mod Text
pub mod Words
pub mod SipHash
pub mod CityHash
