-- ===== src/Checker/OtherTurns.antt =====
-- The turns of `worker` (nwchecker_server_multiprocess.c) that take no worker: commands and the pass
-- over the connections.
use imooc_sock_core_tech.Prelude.{
  ℕ, ◌≡◌, inl, inr, Bool, true, false, ◌&&◌, List, [], ◌∷◌, arith, Option-cases, take,
  if◌then◌else◌,
}
use imooc_sock_core_tech.Outcome.{done}
use imooc_sock_core_tech.World.{SendReply, sent}
use imooc_sock_core_tech.Checker.{
  Connection, sent_bytes, nonblocking, closed, System, pong_message, pure, ◌>>=◌, >>=-done,
  next_message, is_set,
}
use imooc_sock_core_tech.Checker.Answering.{
  receive_ping, answer_pong, may_send, answer_turn, serve, serve_all,
}
use imooc_sock_core_tech.Checker.Messages.{Notice, worker_recv_msg}
use imooc_sock_core_tech.Checker.Worker.{obey, WorkerContext, Process, take_command}
use imooc_sock_core_tech.Checker.Rotation.{IsAt, note-IsAt}

abbrev first_sent : List SendReply → ℕ
first_sent (sent n ∷ rest) = n
first_sent _ = 0

module _ (w0 w1 w2 w3 : WorkerContext) where
  receive_ping-IsAt :
      (nwc nwc' : Connection) (s t : System Process) (go : Bool)
      → IsAt w0 w1 w2 w3 0 s
      → receive_ping nwc s ≡ done ((go, nwc'), t)
      → IsAt w0 w1 w2 w3 0 t
  unfolding receive_ping
  receive_ping-IsAt nwc nwc' s t go h e = elim (Option-cases nwc.fd) [
    | inl shut ↦ ground arith
    | inr (fd, held) ↦ ground (arith, note-IsAt w0 w1 w2 w3 0 (closed fd) s tt h)
  ]

  answer_pong-IsAt :
      (nwc nwc' : Connection) (s t : System Process) (go : Bool)
      → IsAt w0 w1 w2 w3 0 s
      → answer_pong nwc s ≡ done ((go, nwc'), t)
      → IsAt w0 w1 w2 w3 0 t
  unfolding answer_pong
  answer_pong-IsAt nwc nwc' s t go h e = elim (Option-cases nwc.fd) [
    | inl shut ↦ ground arith
    | inr (fd, held) ↦ ground (
      arith,
      note-IsAt w0 w1 w2 w3 0 (closed fd) s tt h,
      note-IsAt w0 w1 w2 w3 0 (sent_bytes fd (take (first_sent s.sends) pong_message)) s tt h,
    )
  ]

  recv_msg-IsAt :
      (s t : System Process) (notice : Notice)
      → IsAt w0 w1 w2 w3 0 s
      → worker_recv_msg s ≡ done (notice, t)
      → IsAt w0 w1 w2 w3 0 t
  unfolding worker_recv_msg next_message
  recv_msg-IsAt s t notice h e = ground arith

  obey-IsAt :
      (notice : Notice) (s t : System Process) (go : Bool)
      → IsAt w0 w1 w2 w3 0 s
      → obey notice s ≡ done (go, t)
      → IsAt w0 w1 w2 w3 0 t
  unfolding obey
  obey-IsAt notice s t go h e = elim (Option-cases notice.fd) [
    | inl shut ↦ ground arith
    | inr (fd, held) ↦ ground (arith, note-IsAt w0 w1 w2 w3 0 (nonblocking fd) s tt h)
  ]

  pub take_command-IsAt :
      (s t : System Process) (go : Bool)
      → IsAt w0 w1 w2 w3 0 s
      → take_command s ≡ done (go, t)
      → IsAt w0 w1 w2 w3 0 t
  unfolding take_command
  take_command-IsAt s t go h e =
      let (notice, s1, got, obeys) = >>=-done worker_recv_msg (obey) s t go e in
      obey-IsAt notice s1 t go (recv_msg-IsAt s s1 notice h got) obeys

  received_or_not-IsAt :
      (readable : Bool) (nwc : Connection) (r : Bool × Connection) (s t : System Process)
      → IsAt w0 w1 w2 w3 0 s
      → (if readable then receive_ping nwc else pure (true, nwc)) s ≡ done (r, t)
      → IsAt w0 w1 w2 w3 0 t
  received_or_not-IsAt true nwc r s t h e = receive_ping-IsAt nwc r.1 s t r.0 h e
  received_or_not-IsAt false nwc r s t h e = ground arith

  answer_turn-IsAt :
      (stray : List ℕ → Bool) (writefds : List ℕ) (r q : Bool × Connection) (s t : System Process)
      → IsAt w0 w1 w2 w3 0 s
      → answer_turn stray writefds r s ≡ done (q, t)
      → IsAt w0 w1 w2 w3 0 t
  unfolding answer_turn
  answer_turn-IsAt stray writefds (go, nwc) q s t h e =
      sent_or_not (go && may_send stray writefds nwc) e
    where
      sent_or_not :
          (b : Bool)
          → (if b then answer_pong nwc else pure (go, nwc)) s ≡ done (q, t)
          → IsAt w0 w1 w2 w3 0 t
      sent_or_not true e = answer_pong-IsAt nwc q.1 s t q.0 h e
      sent_or_not false e = ground arith

  module _ (stray : List ℕ → Bool) (readfds writefds : List ℕ) where
    serve-IsAt :
        (nwc : Connection) (r : Bool × Connection) (s t : System Process)
        → IsAt w0 w1 w2 w3 0 s
        → serve stray readfds writefds nwc s ≡ done (r, t)
        → IsAt w0 w1 w2 w3 0 t
    unfolding serve
    serve-IsAt nwc r s t h e =
        let readable = is_set stray nwc.fd readfds in
        let (r1, s1, first, second) =
          >>=-done (if readable then receive_ping nwc else pure (true, nwc))
            (answer_turn stray writefds) s t r e in
        answer_turn-IsAt stray writefds r1 r s1 t
          (received_or_not-IsAt readable nwc r1 s s1 h first) second

    pub serve_all-IsAt :
        (nwcs : List Connection) (s t : System Process) (left : List Connection)
        → IsAt w0 w1 w2 w3 0 s
        → serve_all stray readfds writefds nwcs s ≡ done (left, t)
        → IsAt w0 w1 w2 w3 0 t
    unfolding serve_all
    serve_all-IsAt [] s t left h e = ground arith
    serve_all-IsAt (nwc ∷ nwcs) s t left h e =
        let ((go, nwc'), s1, first, second) =
          >>=-done (serve stray readfds writefds nwc)
            (λ (r : Bool × Connection).
              if r.0
              then (serve_all stray readfds writefds nwcs >>= λ rest. pure (r.1 ∷ rest))
              else pure (r.1 ∷ nwcs))
            s t left e in
        rest_or_not go nwc' s1 (serve_all-IsAt nwcs s1) (serve-IsAt nwc (go, nwc') s s1 h first)
          second
      where
        rest_or_not :
            (b : Bool) (nwc' : Connection) (s1 : System Process)
            → ((t : System Process) (left : List Connection)
                → IsAt w0 w1 w2 w3 0 s1
                → serve_all stray readfds writefds nwcs s1 ≡ done (left, t)
                → IsAt w0 w1 w2 w3 0 t)
            → IsAt w0 w1 w2 w3 0 s1
            → (if b
                  then (serve_all stray readfds writefds nwcs >>= λ rest. pure (nwc' ∷ rest))
                  else pure (nwc' ∷ nwcs))
                s1
              ≡ done (left, t)
            → IsAt w0 w1 w2 w3 0 t
        rest_or_not true nwc' s1 ih same second =
            let (rest, s2, ran, ends) =
              >>=-done (serve_all stray readfds writefds nwcs)
                (λ (rest : List Connection). pure (nwc' ∷ rest)) s1 t left second in
            let kept = ih s2 rest same ran in ground (arith, kept)
        rest_or_not false nwc' s1 ih same second = ground arith
