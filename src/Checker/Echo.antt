-- ===== src/Checker/Echo.antt =====
-- The TCP server in one process (nwchecker_server.c of 04-24_UNIX异步IO机制) beside the worker of the
-- server in several (nwchecker_server_multiprocess.c).
use mathlib.Core.Path.{fun_ext}
use imooc_sock_core_tech.Prelude.{
  ℕ, ◌≡◌, ◌≢◌, refl, ap, Bool, true, false, List, [], ◌∷◌, arith, if◌then◌else◌,
}
use imooc_sock_core_tech.Checker.{Connection, System, Cmd, pure, ◌>>=◌, is_set}
use imooc_sock_core_tech.Checker.Answering.{receive_ping, answer_turn, serve, serve_all}
use imooc_sock_core_tech.Checker.Server.{echo_read, echo_write, echo_all}

module _ {L : Type 0} (stray : List ℕ → Bool) (echo_mode : ℕ) (readfds writefds : List ℕ)
    (answers : echo_mode ≢ 2) (receives : echo_mode ≢ 3) where
  echo_read-lem :
      (nwc : Connection) (s : System L)
      → echo_read stray echo_mode readfds writefds nwc s
        ≡ (if is_set stray nwc.fd readfds then receive_ping nwc else pure (true, nwc)) s
  unfolding echo_read receive_ping
  echo_read-lem nwc s = ground arith

  echo_write-lem :
      (nwc : Connection) (s : System L)
      → echo_write stray echo_mode readfds writefds nwc s ≡ answer_turn stray writefds (true, nwc) s
  unfolding echo_write answer_turn
  echo_write-lem nwc s = ground arith

  turn_on :
      (r : Bool × Connection) (s : System L)
      → (if r.0 then echo_write stray echo_mode readfds writefds r.1 else pure r) s
        ≡ answer_turn stray writefds r s
  turn_on (true, nwc) s = echo_write-lem nwc s
  turn_on (false, nwc) s = unfold answer_turn in refl

  echo_turn : Connection → Cmd L (Bool × Connection)
  echo_turn nwc = echo_read stray echo_mode readfds writefds nwc >>= λ r.
      if r.0 then echo_write stray echo_mode readfds writefds r.1 else pure r

  echo_turn-serve : (nwc : Connection) → echo_turn nwc ≡ serve stray readfds writefds nwc
  unfolding echo_turn serve
  echo_turn-serve nwc = λ i. fun_ext (echo_read-lem nwc) i >>= fun_ext (λ r. fun_ext (turn_on r)) i

  echo_all-path :
      (nwcs : List Connection)
      → ◌≡◌ {A = Cmd L (List Connection)}
          (echo_all stray echo_mode readfds writefds nwcs)
          (serve_all stray readfds writefds nwcs)
  unfolding echo_all serve_all echo_turn
  echo_all-path [] = refl
  echo_all-path (nwc ∷ nwcs) = λ i. echo_turn-serve nwc i >>= λ r.
      if r.0 then (echo_all-path nwcs i >>= λ rest. pure (r.1 ∷ rest)) else pure (r.1 ∷ nwcs)

  -- In the echo modes other than 2 (no response) and 3 (no receiving), the TCP server's pass over
  -- its connections does in every state, and with whatever answers, what the multi-process server's
  -- pass does.
  pub echo_all-serve_all :
      (nwcs : List Connection) (s : System L)
      → echo_all stray echo_mode readfds writefds nwcs s ≡ serve_all stray readfds writefds nwcs s
  echo_all-serve_all nwcs s = ap (λ (f : Cmd L (List Connection)). f s) (echo_all-path nwcs)
