-- ===== src/World.antt =====
-- What the handlers of one session work on, and what they take from outside.
-- src/server/Server.hpp: `account_cache()` and `db()`. src/common/database/QueryResults.hpp: `AccountsRow`.
use purity.Common.Int.{ℤ}
use purity.Common.{ℕ, List, Option, Outcome}
use purity.Exception.{Exception}
use purity.AccountCache.{AccountCache}
use purity.OpenSsl.{OpenSsl}
use purity.Packet.{Packet}
use purity.Session.{Session, AnyPacket, send_packet}
use purity.Srp6.{Srp6}

-- A point in time is the number of seconds that `time_t` counts.
pub record AccountsRow : Type 0 where
  pub id : ℕ
  pub name : Option (List ℕ)
  pub salt : Option (List ℕ)
  pub verifier : Option (List ℕ)
  pub email : Option (List ℕ)
  pub created_at : Option ℤ

-- `db` is `execute_sync` for the statement that selects an account by its name; `rand_bytes` is what
-- `RAND_bytes` draws; `now` and `later` are two readings of the steady clock, in this order.
pub record Env : Type 0 where
  pub ssl : OpenSsl
  pub db : List ℕ → Outcome Exception (Option AccountsRow)
  pub rand_bytes : List ℕ
  pub now : ℕ
  pub later : ℕ

pub record World : Type 0 where
  pub session : Session
  pub cache : AccountCache

-- `session->getAccountInfo()->srp()`, and the object changed.
unfoldable pub srp_of : World → Srp6
srp_of w = w.session.account_info.srp

unfoldable pub with_srp : World → Srp6 → World
with_srp w srp =
    let s = w.session in
    record w { session = record s { account_info = record s.account_info { srp = srp } } }

-- src/common/utils/PacketUtils.hpp: `send_packet_as`
unfoldable pub send_packet_as : (Packet → AnyPacket) → World → Packet → World
send_packet_as packet_type w p = record w { session = send_packet w.session (packet_type p) }
