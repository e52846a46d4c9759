-- ===== src/Checker/Server.antt =====
-- nwchecker_server.c of 04-24_UNIX异步IO机制: the TCP server in one process. `echo_mode` 2 does not
-- answer and 3 does not receive.
use imooc_sock_core_tech.Prelude.{
  ℕ, zero, suc, Bool, true, false, ◌||◌, ◌&&◌, not, Option, none, some, List, [], ◌∷◌, ◌++◌, ◌==◌,
  has, if◌then◌else◌,
}
use imooc_sock_core_tech.Prelude.Int.{ℤ, pos, negsuc}
use imooc_sock_core_tech.Outcome.{hang}
use imooc_sock_core_tech.Types.{eintr, eagain}
use imooc_sock_core_tech.World.{
  RecvReply, received, recv_failed, SendReply, sent, send_failed, AcceptReply, accepted,
  accept_failed,
}
use imooc_sock_core_tech.Checker.{
  Connection, writes, keep_read, add_write, pong_message, overwrite, closed, nonblocking, selected,
  SelectReply, select_failed, ready, Cmd, pure, ◌>>=◌, ◌>>◌, get, put, note_call, on_fd, next_recv,
  next_accept, next_select, send_on, FdSets, nfds_of, is_set,
}
use imooc_sock_core_tech.Checker.Answering.{watch_all, destroy_all}
use imooc_sock_core_tech.Checker.Listening.{listen_socket}
use imooc_sock_core_tech.Checker.Worker.{timeval_of, left_over, new_connection}

module _ {L : Type 0} where
  unfoldable pub echo_close : Connection → Cmd L (Bool × Connection)
  echo_close nwc = do on_fd closed nwc.fd; pure (false, record nwc { fd = none })

  unfoldable pub echo_received : Connection → RecvReply → Cmd L (Bool × Connection)
  unfolding echo_close
  echo_received nwc (received []) = echo_close nwc
  echo_received nwc (received (b ∷ bs)) =
      pure (true, record nwc { recv_buffer = overwrite (b ∷ bs) nwc.recv_buffer })
  echo_received nwc (recv_failed errno) =
      if errno == eintr
      then pure (true, nwc)
      else if errno == eagain
      then pure (true, nwc)
      else echo_close nwc

  unfoldable pub echo_sent : Connection → SendReply → Cmd L (Bool × Connection)
  unfolding echo_close
  echo_sent nwc (sent n) = pure (true, nwc)
  echo_sent nwc (send_failed errno) =
      if errno == eintr
      then pure (true, nwc)
      else if errno == eagain
      then pure (true, record nwc { events = add_write nwc.events })
      else echo_close nwc

  module _ (stray : List ℕ → Bool) (echo_mode : ℕ) (readfds writefds : List ℕ) where
    -- `if (FD_ISSET(nwc->fd, &readfds))`
    unfoldable pub echo_read : Connection → Cmd L (Bool × Connection)
    unfolding echo_received next_recv
    echo_read nwc =
        if is_set stray nwc.fd readfds && not (echo_mode == 3)
        then next_recv >>= echo_received nwc
        else pure (true, nwc)

    -- `if (!(nwc->events & 2) || FD_ISSET(nwc->fd, &writefds))`
    unfoldable pub echo_write : Connection → Cmd L (Bool × Connection)
    unfolding echo_sent send_on
    echo_write nwc =
        if not (writes nwc.events) || is_set stray nwc.fd writefds
        then (let nwc' = record nwc { events = keep_read nwc.events } in
            if echo_mode == 2
            then pure (true, nwc')
            else (send_on nwc.fd pong_message >>= echo_sent nwc'))
        else pure (true, nwc)

    -- The pass over the connections from the given ones on.
    unfoldable pub echo_all : List Connection → Cmd L (List Connection)
    unfolding echo_read echo_write
    echo_all [] = pure []
    echo_all (nwc ∷ nwcs) = (echo_read nwc >>= λ r. if r.0 then echo_write r.1 else pure r) >>= λ r.
        if r.0 then (echo_all nwcs >>= λ rest. pure (r.1 ∷ rest)) else pure (r.1 ∷ nwcs)

-- The variables of `nwc_server` that last.
pub record ServerState : Type 0 where
  pub sock_fd : ℕ
  pub nwc_hdr : List Connection
  pub timeout_value : Option (ℕ × ℕ)

-- What follows `accept`: `false` is `break`. The `pid` of a connection is -1.
unfoldable pub accept_connection : AcceptReply → Cmd ServerState Bool
accept_connection (accept_failed errno) = pure (errno == eintr)
accept_connection (accepted fd) = do
  note_call (nonblocking fd)
  p ← get
  put (record p { nwc_hdr = p.nwc_hdr ++ new_connection none (some fd) ∷ [] })
  pure true

module _ (stray : List ℕ → Bool) (echo_mode sleep_time : ℕ) where
  unfoldable pub server_serve : (readfds writefds : List ℕ) → Cmd ServerState Bool
  unfolding echo_all
  server_serve readfds writefds = do
    p ← get
    nwcs ← echo_all stray echo_mode readfds writefds p.nwc_hdr
    put (record p { nwc_hdr = nwcs; timeout_value = timeval_of sleep_time })
    pure true

  unfoldable pub server_dispatch : (readfds writefds : List ℕ) (sock_fd : ℕ) → Cmd ServerState Bool
  unfolding accept_connection server_serve next_accept
  server_dispatch readfds writefds sock_fd =
      if has sock_fd readfds
      then (next_accept >>= accept_connection >>= λ go.
          if go then server_serve readfds writefds else pure false)
      else server_serve readfds writefds

  unfoldable pub server_selected : ServerState → SelectReply → Cmd ServerState Bool
  unfolding server_dispatch
  server_selected p (select_failed errno) = do put p; pure (errno == eintr)
  server_selected p (ready readfds writefds left) =
      put (record p { timeout_value = left_over left p.timeout_value })
      >> server_dispatch readfds writefds p.sock_fd

  -- One round of `while(1)`: whether there is a next one.
  unfoldable pub server_round : Cmd ServerState Bool
  unfolding watch_all server_selected next_select
  server_round s =
      let p = s.locals in
      let own : FdSets = record {
        readfds = p.sock_fd ∷ [];
        writefds = [];
        max_fd = some p.sock_fd;
      } in
      let w = watch_all p.nwc_hdr own in
      (note_call (selected (nfds_of w.1.max_fd) w.1.readfds w.1.writefds p.timeout_value)
          >> (next_select >>= server_selected (record p { nwc_hdr = w.0 })))
        s

  unfoldable pub server_loop : (fuel : ℕ) → Cmd ServerState (Unit {0})
  unfolding server_round
  server_loop zero s = hang
  server_loop (suc k) s =
      let rest = server_loop k in (server_round >>= λ go. if go then rest else pure tt) s

  unfoldable pub run_nwc_server : (fuel port : ℕ) → Cmd ServerState ℤ
  unfolding listen_socket server_loop destroy_all
  run_nwc_server fuel port = listen_socket port >>= λ reply. elim reply [
    | none ↦ pure (negsuc 0)
    | some fd ↦ do
      put (record { sock_fd = fd; nwc_hdr = []; timeout_value = none })
      server_loop fuel
      p ← get
      destroy_all p.nwc_hdr
      note_call (closed fd)
      pure (pos 0)
  ]
