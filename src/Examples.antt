-- ===== src/Examples.antt =====
-- The theorems applied to concrete values.
pub mod Ssl
pub mod Buffers
pub mod Text
pub mod Login
pub mod Serving
pub mod Connections
pub mod Pools
pub mod Systems
pub mod Programs
pub mod Credentials
