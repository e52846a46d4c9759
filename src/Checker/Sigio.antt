-- ===== src/Checker/Sigio.antt =====
-- sigio_udp_server.c of 04-24_UNIX异步IO机制: datagrams are taken in by the handler of SIGIO, which runs
-- only in `sigsuspend`, and answered by the loop. `alloc_nwc_conn_arg0` does not set `fd`; what
-- `malloc` left there is a part of the state.
use imooc_sock_core_tech.Prelude.{
  ℕ, zero, suc, Option, none, some, List, [], if◌then◌else◌, ◌∷◌, ◌++◌, ◌+◌,
}
use imooc_sock_core_tech.Outcome.{done, hang}
use imooc_sock_core_tech.World.{SockAddr}
use imooc_sock_core_tech.Checker.{
  pong_message, DatagramReply, datagram, recvfrom_failed, closed, Cmd, pure, ◌>>=◌, ◌>>◌, get, put,
  on_fd, send_to, note_call, bound_to, nonblocking, next_socket, next_ok,
}

-- A datagram that waits for its answer; `none` in `fd` is -1.
pub record Waiting : Type 0 where
  pub addr : SockAddr
  pub recv_buffer : List ℕ
  pub fd : Option ℕ

-- `datagrams` are the answers of `recvfrom` to come, and `left_in_fd` what `malloc` leaves in the
-- next objects.
pub record SigioState : Type 0 where
  pub sock_fd : ℕ
  pub nwc_hdr : List Waiting
  pub datagrams : List DatagramReply
  pub left_in_fd : ℕ → Option ℕ
  pub allocated : ℕ

-- `sigio_handler` over the answers to come: it ends when `recvfrom` fails, with the object that it
-- has made for the next datagram freed.
unfoldable pub sigio_handler : List DatagramReply → Cmd SigioState (Unit {0})
sigio_handler [] s = hang
sigio_handler (recvfrom_failed errno ∷ rest) s =
    (do
      p ← get
      put (record p { datagrams = rest; allocated = p.allocated + 1 })
      on_fd closed (p.left_in_fd p.allocated))
      s
sigio_handler (datagram bytes from ∷ rest) s =
    let more = sigio_handler rest in
    (do
      p ← get
      put (record p {
        nwc_hdr =
            p.nwc_hdr
            ++ record { addr = from; recv_buffer = bytes; fd = p.left_in_fd p.allocated } ∷ [];
        datagrams = rest;
        allocated = p.allocated + 1;
      })
      more)
      s

-- The pass of the loop: each is answered, taken out and freed, whatever `sendto` says.
unfoldable pub sigio_answer : (sock_fd : ℕ) → List Waiting → Cmd SigioState (Unit {0})
unfolding send_to
sigio_answer sock_fd [] = pure tt
sigio_answer sock_fd (nwc ∷ nwcs) = send_to sock_fd pong_message nwc.addr >>= λ reply.
    on_fd closed nwc.fd >> sigio_answer sock_fd nwcs

-- `sigsuspend` where nothing waits.
unfoldable pub wait_for_signal : Cmd SigioState (Unit {0})
unfolding sigio_handler
wait_for_signal s = elim (s.locals.nwc_hdr) [
  | [] ↦ sigio_handler s.locals.datagrams s
  | nwc ∷ nwcs ↦ done (tt, s)
]

-- One round of `while(1)`, which is never left.
unfoldable pub sigio_round : Cmd SigioState (Unit {0})
unfolding wait_for_signal sigio_answer
sigio_round = do
  wait_for_signal
  p ← get
  put (record p { nwc_hdr = [] })
  sigio_answer p.sock_fd p.nwc_hdr

unfoldable pub sigio_rounds : (n : ℕ) → Cmd SigioState (Unit {0})
unfolding sigio_round
sigio_rounds zero = pure tt
sigio_rounds (suc n) = sigio_round >> sigio_rounds n

-- `sigio_udp_server` up to its first rounds: `none` is the return of -1. A failure of `sigaction`
-- leaves the socket open.
unfoldable pub run_sigio_udp_server : (port rounds : ℕ) → Cmd SigioState (Option ℕ)
unfolding sigio_rounds next_socket next_ok
run_sigio_udp_server port rounds = next_socket >>= λ reply. elim reply [
  | none ↦ pure none
  | some fd ↦ next_ok >>= λ bind_ok.
      if bind_ok
      then (note_call (bound_to fd port)
          >> (next_ok >>= λ sigaction_ok.
              if sigaction_ok
              then (do
                note_call (nonblocking fd)
                p ← get
                put (record p { sock_fd = fd; nwc_hdr = [] })
                sigio_rounds rounds
                pure (some fd))
              else pure none))
      else (note_call (closed fd) >> pure none)
]
