-- ===== src/AuthStage.antt =====
-- src/server/SessionMode/authstage: what a session does until its client has logged in.
-- The opcodes and codes of `AuthOpcodes.hpp` are here, `HandlersAuth.cpp` is in Handlers and
-- `ReaderAuthSession.cpp` in Reader.
pub mod Handlers
pub mod Proof
pub mod Challenge
pub mod Reader
pub mod Framing
pub mod Known
use purity.Common.{ℕ}

abbrev pub empty_stage : ℕ
empty_stage = 0

abbrev pub cmsg_ping : ℕ
cmsg_ping = 1

abbrev pub smsg_pong : ℕ
smsg_pong = 2

abbrev pub cmsg_auth_logon_challenge : ℕ
cmsg_auth_logon_challenge = 3

abbrev pub smsg_auth_logon_challenge : ℕ
smsg_auth_logon_challenge = 4

abbrev pub cmsg_auth_logon_proof : ℕ
cmsg_auth_logon_proof = 5

abbrev pub smsg_auth_logon_proof : ℕ
smsg_auth_logon_proof = 6

abbrev pub smsg_auth_response : ℕ
smsg_auth_response = 7

-- `AuthStatusCode`
abbrev pub auth_failed : ℕ
auth_failed = 1

-- `AuthErrorCode`
abbrev pub internal_error : ℕ
internal_error = 0

abbrev pub wrong_username : ℕ
wrong_username = 1

abbrev pub wrong_password : ℕ
wrong_password = 2

abbrev pub database_busy : ℕ
database_busy = 3
