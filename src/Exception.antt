-- ===== src/Exception.antt =====
-- The exceptions that the code throws, with what their messages say.
pub mod Source
use purity.Common.{ℕ}
use Source.{ReadSource}

pub data Exception : Type 0 where
  -- `ByteBuffer::check_read`: source, bytes wanted, read position, buffer size.
  not_enough_data : ReadSource → ℕ → ℕ → ℕ → Exception
  -- The constructor of a vector or a string, for a length over `max_size()`.
  length_error : Exception
  -- `MessageBuffer::write_completed` and `read_completed`.
  write_overflow read_overflow : Exception
  -- `AuthPacket::deserialize` and `WorkPacket::deserialize`.
  length_mismatch : Exception
  -- `HexUtils`: a source longer than the target, an odd length, a character that is no digit.
  source_too_long odd_length bad_hex_digit : Exception
  -- `Database`: no connection in time, a lost one, a failed reconnection, any other failure of libpqxx.
  no_connection broken_connection reconnection_failed sql_error : Exception
  -- `tcp::resolver::resolve`, for a host that has no address.
  resolve_failed : Exception
  -- `TimeUtils::parse_pg_timestamp`
  bad_timestamp : Exception
