-- ===== src/Examples/Connections.antt =====
-- The client, and a server's session in work mode, on concrete values.
use purity.Common.{
  length-replicate, ℕ, ◌≡◌, refl, sym, ap, inl, inr, true, List, [], ◌∷◌, ◌++◌, ok, ◌>>=◌,
  replicate, arith,
}
use purity.Bytes.{le_bytes, be_bytes}
use purity.MessageBuffer.{IsValid, contents}
use purity.MessageBuffer.Queue.{consumed}
use purity.Packet.{Packet, new}
use purity.Packet.Work
use purity.Packet.Write.{write_uint32_le}
use purity.Packet.Codec.{packet, work_frame}
use purity.Session.{auth_session, work_session, work_packet, set_session_mode}
use purity.Session
use purity.World.{World, srp_of}
use purity.AuthStage.Handlers.{challenge, keyed_srp}
use purity.AuthStage.Reader.{close_on_throw}
use purity.AuthStage.Framing.{advanced}
use purity.WorkStage
use purity.WorkStage.{dispatch}
use purity.WorkStage.Reader.{process_read_buffer_as_workserver}
use purity.WorkStage.Framing.{process_work_buffer-build_packet}
use purity.Connection.{process_read_buffer, read_succeeded}
use purity.Connection.Invariant.{IsServing, Serves}
use purity.Connection.Serving.{read_succeeded-IsServing}
use purity.MessageBuffer
use purity.MessageBuffer.Laws.{new-IsValid, get_remaining_space_lem}
use purity.Client.{
  Client, header, create, send_packet_impl, connect_succeeded, send_ping, start_receive_loop,
}
use purity.Client.Handlers.{ClientEnv}
use purity.Client.Receive.{log_thrown}
use purity.Client.Login.{LoggedIn, login}
use purity.AuthStage.Challenge.{IsReady}
use purity.Common.{length, take, ◌-◌, append-nil, take-append, ◌∙◌}
use purity.Session.{auth_packet}
use purity.Client.Writing.{Steps, Steps-Stepped, more, done, sends, connects}
use purity.Client.Queue.{Stepped}
use purity.Client.Draining.{run_writes, run_writes-drains}
use purity.Client.Framing.{build, deliver, handle, deliver-build}
use purity.Client.Reconnect.{ping_bytes, connect_succeeded-mode}
use purity.Examples.Ssl.{ssl}
use purity.Examples.Login.{srp, env, received}

abbrev pub fresh : Client
fresh = create ssl

abbrev salt : List ℕ
salt = replicate 32 1

pub ready : IsReady (received [])
unfolding Session.new srp_of
ready = record { opened = refl; positive = omega arith; small = omega arith }

-- The client's side of a login: the parameters, and what it does with them.
abbrev logged_in :
    (parameters : Packet) × (challenge env (keyed_srp env (received []) salt (6 ∷ [])) salt
      ≡ ok parameters)
    × LoggedIn env (replicate 32 4) fresh (received []) parameters
unfolding Session.new
logged_in =
    login env (replicate 32 4) fresh (received []) (received []) salt (6 ∷ []) ready refl refl

pub whole : (xs : List ℕ) → contents (record { wpos = length xs; rpos = 0; storage = xs }) ≡ xs
unfolding contents
whole xs =
    let all : length xs - 0 ≡ length xs = omega arith in
    ap (λ n. take n xs) all ∙ (rw (append-nil xs) at (take-append (length xs) xs [] refl))

-- A packet is sent before there is a connection.
abbrev queued : Client
queued = send_packet_impl fresh (1 ∷ 2 ∷ [])

abbrev course : Steps fresh (((1 ∷ 2 ∷ []) ∷ []) ++ ([] ++ [])) (connect_succeeded queued)
unfolding create send_packet_impl
course =
    more (sends (1 ∷ 2 ∷ []) refl refl)
      (more (connects refl refl refl refl) (done (connect_succeeded queued)))

Steps-Stepped_example : Stepped fresh (((1 ∷ 2 ∷ []) ∷ []) ++ ([] ++ [])) (connect_succeeded queued)
unfolding create
Steps-Stepped_example =
    Steps-Stepped fresh (connect_succeeded queued) (((1 ∷ 2 ∷ []) ∷ []) ++ ([] ++ []))
      (inl (refl, inl refl)) course

-- A connection with two packets to send, the first on its way.
abbrev busy : Client
busy = record fresh {
  connected = true;
  outgoing_queue = (1 ∷ []) ∷ (2 ∷ []) ∷ [];
  in_flight = (1 ∷ []) ∷ [];
  reads = header auth_session ∷ [];
}

run_writes-drains_example :
    (d : Client) × (run_writes 2 busy ≡ ok d)
    × (d.outgoing_queue ≡ [])
    × (d.in_flight ≡ [])
    × (d.written ≡ [] ++ ((1 ∷ []) ∷ (2 ∷ []) ∷ []))
unfolding create
run_writes-drains_example =
    run_writes-drains busy ((1 ∷ []) ∷ (2 ∷ []) ∷ []) (inr (1 ∷ [], (2 ∷ []) ∷ [], refl, refl)) refl
      refl

abbrev drawn : ClientEnv
drawn = record { ssl = ssl; rand_bytes = 4 ∷ [] }

deliver-build_example :
    deliver 2 drawn busy (build auth_session (packet 7 (1 ∷ 3 ∷ [])) ++ (9 ∷ [])) ≡ (
      log_thrown
        (record busy { reads = [] })
        (handle drawn (record busy { reads = [] }) auth_session (packet 7 (1 ∷ 3 ∷ [])))
      >>= λ d. ok (start_receive_loop d, 9 ∷ []))
deliver-build_example =
    deliver-build drawn busy auth_session 7 (1 ∷ 3 ∷ []) (9 ∷ []) refl (omega arith) (omega arith)

abbrev pub working : Client
working = record fresh { session_mode = work_session }

abbrev ping : ℕ → Packet
ping id = write_uint32_le (new WorkStage.cmsg_ping) id

abbrev pinged : World
pinged = received (0 ∷ 1 ∷ 0 ∷ 4 ∷ 9 ∷ 0 ∷ 0 ∷ 0 ∷ [])

pinged-IsValid : IsValid pinged.session.read_buffer
pinged-IsValid = record { ordered = omega arith; in_storage = omega arith; small = omega arith }

connect_succeeded-mode_example :
    ((connect_succeeded working).session_mode ≡ work_session)
    × ((send_ping working 9).outgoing_queue ≡ [] ++ (Work.build_packet (ping 9) ∷ []))
    × (process_read_buffer env pinged ≡ ok pinged)
unfolding create Session.new contents le_bytes
connect_succeeded-mode_example =
    connect_succeeded-mode env working pinged 9 [] refl refl pinged-IsValid
      (sym (ap (λ xs. xs ++ []) (ping_bytes 9))) (omega arith)

process_work_buffer-build_packet_example :
    (process_read_buffer_as_workserver pinged
      ≡ close_on_throw
          (advanced 8 pinged)
          (dispatch (advanced 8 pinged) (packet 1 (9 ∷ 0 ∷ 0 ∷ 0 ∷ []))))
    × IsValid (consumed 8 pinged.session.read_buffer)
    × (contents (consumed 8 pinged.session.read_buffer) ≡ [])
unfolding contents
process_work_buffer-build_packet_example =
    process_work_buffer-build_packet pinged (packet 1 (9 ∷ 0 ∷ 0 ∷ 0 ∷ [])) [] pinged-IsValid
      (rw (work_frame (packet 1 (9 ∷ 0 ∷ 0 ∷ 0 ∷ []))) (unfold be_bytes le_bytes in refl))
      (omega arith) (omega arith)

-- A session that waits for its first bytes.
abbrev waiting : World
waiting = record { session = Session.new srp; cache = record { cache = []; ttl = 300 } }

waiting-IsServing : IsServing 4096 waiting.session
unfolding Session.new MessageBuffer.new
waiting-IsServing = record {
  buffer = ((new-IsValid 4096 (omega arith)).0, omega (arith, length-replicate {A = ℕ} 4096 0));
  stage = inl (refl, refl);
  writes = inr (inl (refl, refl, refl));
}

read_succeeded-IsServing_example : Serves 4608 (read_succeeded env waiting (1 ∷ 0 ∷ 0 ∷ []))
unfolding Session.new MessageBuffer.new
read_succeeded-IsServing_example =
    read_succeeded-IsServing 4096 env waiting (1 ∷ 0 ∷ 0 ∷ []) (λ username. tt) waiting-IsServing
      (omega (
        arith,
        get_remaining_space_lem (MessageBuffer.new 4096) (new-IsValid 4096 (omega arith)).0,
        length-replicate {A = ℕ} 4096 0,
      ))
      (omega arith)
