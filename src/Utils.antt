-- ===== src/Utils.antt =====
-- src/common/utils: text, hexadecimal digits, addresses, time stamps and random values.
pub mod Utf8
pub mod Hex
pub mod Net
pub mod Time
pub mod Generators
