-- ===== src/Examples/Credentials.antt =====
-- A whole login, on concrete values.
use purity.Common.{
  ℕ, ◌∙◌, ◌≡◌, refl, sym, true, List, [], ◌∷◌, ◌++◌, append-nil, replicate, length-replicate, arith,
}
use purity.AccountCache.{Entry, get, get_found, find}
use purity.MessageBuffer.{IsValid}
use purity.Session
use purity.Utils.Utf8.{
  is_valid_utf8, to_uppercase, case_loop, to_upper, valid_loop, accepts, sequence_length,
}
use purity.World.{World, srp_of}
use purity.AuthStage.Challenge.{IsReady}
use purity.AuthStage.Known.{Known, cached}
use purity.Client
use purity.Packet.Auth.{build_packet}
use purity.ByteBuffer.Write
use purity.ByteBuffer.{empty, size}
use purity.Packet.Write.{write_string_nt_le}
use purity.Bytes.{be_bytes}
use purity.Packet.{new}
use purity.Client.Credentials.{Completed, login_with_credentials}
use purity.Examples.Ssl.{ssl}
use purity.Examples.Login.{env, received}
use purity.Examples.Connections.{fresh, ready, whole}

abbrev username : List ℕ
username = 49 ∷ []

-- The packet with the name "1".
abbrev frame : List ℕ
frame = 3 ∷ 0 ∷ 2 ∷ 49 ∷ 0 ∷ []

abbrev account : Entry
account = record { salt = replicate 32 1; verifier = replicate 32 6; last_access = 0 }

abbrev server : World
server = record (received frame) { cache = record { cache = (username, account) ∷ []; ttl = 300 } }

frame-queued :
    (Client.handle_logon_challenge ssl fresh username username).outgoing_queue
    ≡ fresh.outgoing_queue ++ (frame ∷ [])
unfolding Client.create Client.handle_logon_challenge Client.send_auth_packet
    Client.send_packet_impl build_packet Write.write_bytes Write.write_uint16_be Write.write_uint8
    empty write_string_nt_le be_bytes new size Write.write_string_nt_le
frame-queued = refl

account-Known : Known env server (to_uppercase username) account.salt account.verifier
unfolding get get_found find to_uppercase case_loop to_upper
account-Known = cached (record account { last_access = 10 }) refl

valid_name : is_valid_utf8 username ≡ true
unfolding is_valid_utf8 valid_loop accepts sequence_length
valid_name = refl

server-IsReady : IsReady server
unfolding srp_of
server-IsReady = record { opened = ready.opened; positive = ready.positive; small = ready.small }

server-IsValid : IsValid server.session.read_buffer
server-IsValid = record { ordered = omega arith; in_storage = omega arith; small = omega arith }

login_with_credentials_example :
    Completed env
      (replicate 32 4)
      (Client.handle_logon_challenge ssl fresh username username)
      server
unfolding Session.new
login_with_credentials_example =
    login_with_credentials env ssl (replicate 32 4) fresh server username username account.salt
      account.verifier frame [] frame-queued (whole frame ∙ sym (append-nil frame)) server-IsReady
      refl server-IsValid (omega arith, tt) (omega arith) valid_name account-Known
      (length-replicate {A = ℕ} 32 1) (length-replicate {A = ℕ} 32 6)
