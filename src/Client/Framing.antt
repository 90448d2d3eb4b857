-- ===== src/Client/Framing.antt =====
-- src/Client/Client.cpp: how the client reads what the server sends, a header and a payload at a time.
use purity.Common.{
  zero, suc, throw, fault, length-append, take-append, drop-append, append_assoc, ℕ, ◌≤◌, ◌<◌, ◌^◌,
  ◌%◌, false, ◌≡◌, ◌==◌, refl, sym, ap, ◌∙◌, List, [], ◌∷◌, ◌++◌, append-nil, Outcome, ok, ◌>>=◌,
  length, le→not_ltb, arith,
}
use purity.Exception.{Exception}
use purity.Bytes.{le_bytes, be_bytes}
use purity.Packet.{Packet}
use purity.Packet.Auth
use purity.Packet.Work
use purity.Packet.Codec.{
  packet, auth_frame, work_frame, auth_deserialize-build_packet, work_deserialize-build_packet,
}
use purity.Session.{SessionMode, auth_session, work_session}
use purity.Client.{Client, Reading, header, payload, start_receive_loop}
use purity.Client.Handlers.{ClientEnv, handle_auth_packet, handle_work_packet}
use purity.Client.Receive.{
  log_thrown, handle_raw, process_raw, process_empty, read_payload, payload_read, payload_length,
  header_read, read_done, read_completed, header_size, reading_size, arrive,
}

-- The bytes of the header, by the mode.
abbrev pub header_bytes : SessionMode → Packet → List ℕ
header_bytes auth_session p = p.opcode ∷ be_bytes 2 (length p.buffer.buffer)
header_bytes work_session p = be_bytes 2 p.opcode ++ be_bytes 2 (length p.buffer.buffer)

abbrev pub build : SessionMode → Packet → List ℕ
build auth_session p = Auth.build_packet p
build work_session p = Work.build_packet p

abbrev pub handle : ClientEnv → Client → SessionMode → Packet → Outcome Exception Client
handle env c auth_session p = handle_auth_packet env c p
handle env c work_session p = handle_work_packet c p

build-header_bytes :
    (mode : SessionMode) (p : Packet)
    → length p.buffer.buffer < 2 ^ 16
    → build mode p ≡ header_bytes mode p ++ p.buffer.buffer
unfolding be_bytes le_bytes
build-header_bytes auth_session p h =
    let fits : length p.buffer.buffer % 2 ^ 16 ≡ length p.buffer.buffer = omega arith in
    auth_frame p ∙ ap (λ n. p.opcode ∷ (be_bytes 2 n ++ p.buffer.buffer)) fits
build-header_bytes work_session p h =
    let fits : length p.buffer.buffer % 2 ^ 16 ≡ length p.buffer.buffer = omega arith in
    work_frame p ∙ ap (λ n. be_bytes 2 p.opcode ++ (be_bytes 2 n ++ p.buffer.buffer)) fits

payload_length-header_bytes :
    (mode : SessionMode) (p : Packet)
    → length p.buffer.buffer < 2 ^ 16
    → payload_length mode (header_bytes mode p) ≡ length p.buffer.buffer
unfolding payload_length be_bytes le_bytes
payload_length-header_bytes auth_session p h = omega arith
payload_length-header_bytes work_session p h = omega arith

handle_raw-build :
    (env : ClientEnv) (c : Client) (mode : SessionMode) (p : Packet)
    → length p.buffer.buffer < 2 ^ 16
    → p.opcode < 2 ^ 16
    → handle_raw env c mode (header_bytes mode p ++ p.buffer.buffer)
      ≡ handle env c mode (packet p.opcode p.buffer.buffer)
unfolding handle_raw
handle_raw-build env c auth_session p h o =
    rw (sym (build-header_bytes auth_session p h), auth_deserialize-build_packet p _ h) refl
handle_raw-build env c work_session p h o =
    rw (sym (build-header_bytes work_session p h), work_deserialize-build_packet p _ o h) refl

-- So many reads end, one after the other.
unfoldable pub deliver : ℕ → ClientEnv → Client → List ℕ → Outcome Exception (Client × List ℕ)
deliver zero env c stream = ok (c, stream)
deliver (suc n) env c stream = arrive env c c.reads stream >>= λ r. deliver n env r.0 r.1

abbrev with_left : List ℕ → Client → Outcome Exception (Client × List ℕ)
with_left more d = ok (d, more)

abbrev onward : ℕ → ClientEnv → Client × List ℕ → Outcome Exception (Client × List ℕ)
onward n env q = deliver n env q.0 q.1

-- A header, and a payload unless it is empty.
abbrev pub reads_of : List ℕ → ℕ
reads_of [] = 1
reads_of (b ∷ bytes) = 2

-- A read that finds its bytes in front takes exactly these.
deliver-front :
    (n : ℕ) (env : ClientEnv) (c : Client) (reading : Reading) (bytes more : List ℕ)
    → c.reads ≡ reading ∷ []
    → length bytes ≡ reading_size reading
    → deliver (suc n) env c (bytes ++ more)
      ≡ ((read_completed env c (reading ∷ []) bytes >>= with_left more) >>= onward n env)
unfolding deliver arrive
deliver-front n env c reading bytes more e size =
    rw
      (
        e,
        le→not_ltb (length (bytes ++ more)) (reading_size reading)
            (omega (arith, size, length-append bytes more)),
        take-append (reading_size reading) bytes more size,
        drop-append (reading_size reading) bytes more size,
      )
      refl

length-header_bytes :
    (mode : SessionMode) (p : Packet) → length (header_bytes mode p) ≡ header_size mode
unfolding header_size be_bytes le_bytes
length-header_bytes auth_session p = refl
length-header_bytes work_session p = refl

last-read :
    (env : ClientEnv) (r : Outcome Exception Client) (more : List ℕ)
    → (((r >>= λ d. ok (start_receive_loop d)) >>= with_left more) >>= onward 0 env)
      ≡ (r >>= λ d. ok (start_receive_loop d, more))
unfolding deliver
last-read env (ok d) more = refl
last-read env (throw e) more = refl
last-read env fault more = refl

-- A packet of at most 2048 bytes of payload, whose wire form is in front of what comes to the socket while the
-- client waits for a header, is handled as it was built, once: the read of the header, and that of the payload
-- unless it is empty, take exactly its bytes, and the client waits for the next header in the mode that it is
-- then in, with the bytes behind left at the socket. What the handler throws is dropped, and the client reads on.
pub deliver-build :
    (env : ClientEnv) (c : Client) (mode : SessionMode) (opcode : ℕ) (bytes more : List ℕ)
    → c.reads ≡ header mode ∷ []
    → opcode < 2 ^ 16
    → length bytes ≤ 2048
    → deliver (reads_of bytes) env c (build mode (packet opcode bytes) ++ more) ≡ (
        log_thrown
          (record c { reads = [] })
          (handle env (record c { reads = [] }) mode (packet opcode bytes))
        >>= λ d. ok (start_receive_loop d, more))
unfolding read_completed read_done header_read read_payload payload_read process_empty process_raw
deliver-build env c mode opcode [] more e o h =
    let p = packet opcode [] in
    let front = header_bytes mode p in
    let c0 : Client = record c { reads = [] } in
    let raw = handle_raw-build env c0 mode p (omega arith) o in
    let framed : build mode p ++ more ≡ front ++ more =
      ap (λ xs. xs ++ more) (build-header_bytes mode p (omega arith) ∙ append-nil front) in
    let read : read_completed env c (header mode ∷ []) front
        ≡ (log_thrown c0 (handle env c0 mode p) >>= λ d. ok (start_receive_loop d)) =
      rw (payload_length-header_bytes mode p (omega arith), rw (append-nil front) at raw) refl in
    ap (deliver 1 env c) framed
    ∙ deliver-front 0 env c (header mode) front more e
        (length-header_bytes mode p ∙ (unfold reading_size in refl))
    ∙ ap (λ r. (r >>= with_left more) >>= onward 0 env) read
    ∙ last-read env (log_thrown c0 (handle env c0 mode p)) more
deliver-build env c mode opcode (b ∷ bytes) more e o h =
    let p = packet opcode (b ∷ bytes) in
    let front = header_bytes mode p in
    let c0 : Client = record c { reads = [] } in
    let reading = payload mode front (length (b ∷ bytes)) in
    let waiting : Client = record c { reads = reading ∷ [] } in
    let some_bytes : (length (b ∷ bytes) == 0) ≡ false = ground arith in
    let raw = handle_raw-build env c0 mode p (omega arith) o in
    let framed : build mode p ++ more ≡ front ++ ((b ∷ bytes) ++ more) =
      ap (λ xs. xs ++ more) (build-header_bytes mode p (omega arith))
      ∙ append_assoc front (b ∷ bytes) more in
    let first : read_completed env c (header mode ∷ []) front ≡ ok waiting =
      rw
        (
          payload_length-header_bytes mode p (omega arith),
          le→not_ltb 2048 (length (b ∷ bytes)) h,
          some_bytes,
        )
        refl in
    ap (deliver 2 env c) framed
    ∙ deliver-front 1 env c (header mode) front ((b ∷ bytes) ++ more) e
        (length-header_bytes mode p ∙ (unfold reading_size in refl))
    ∙ ap (λ r. (r >>= with_left ((b ∷ bytes) ++ more)) >>= onward 1 env) first
    ∙ deliver-front 0 env waiting reading (b ∷ bytes) more refl (unfold reading_size in refl)
    ∙ ap
        (λ r.
          ((log_thrown c0 r >>= λ d. ok (start_receive_loop d)) >>= with_left more)
          >>= onward 0 env)
        raw
    ∙ last-read env (log_thrown c0 (handle env c0 mode p)) more
