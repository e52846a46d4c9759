-- ===== src/Checker/UnixStream/Starved.antt =====
-- A connection that unix_stream_server.c of 04-24_UNIX异步IO机制 accepts behind a send that would block.
use imooc_sock_core_tech.Prelude.{
  ℕ, ◌≡◌, ◌≢◌, refl, ap, ◌∙◌, Bool, true, false, ==-refl, List, [], ◌∷◌, ◌++◌, arith, append_assoc,
  append-nil,
}
use imooc_sock_core_tech.Types.{eagain}
use imooc_sock_core_tech.Outcome.{done}
use imooc_sock_core_tech.World.{RecvReply, SendReply, send_failed, AcceptReply, accepted}
use imooc_sock_core_tech.Checker.{
  overwrite, Call, nonblocking, controlled, System, next_ok, next_recv, next_accept, send_on,
}
use imooc_sock_core_tech.Checker.UnixStream.{
  UnixState, epoll_in, epoll_in_out, with_ev, control, unix_accepted, unix_received, unix_read,
  stop_waiting, unix_sent, unix_write, unix_event, unix_events,
}
use imooc_sock_core_tech.Checker.UnixStream.Requests.{
  Request, event_of, events_of, requests, accepting, pongs_for, AreClients, through,
  unix_events-pongs,
}

-- Requests of one connection whose data has 2 in its upper half.
abbrev pub marked : (newfd : ℕ) → List (ℕ × List ℕ) → List Request
marked newfd [] = []
marked newfd ((byte, bytes) ∷ later) =
    record { sfd = newfd; half = 2; byte = byte; bytes = bytes } ∷ marked newfd later

marked-AreClients :
    (listen_fd newfd : ℕ) (later : List (ℕ × List ℕ))
    → newfd ≢ listen_fd
    → AreClients listen_fd (marked newfd later)
marked-AreClients listen_fd newfd [] h = tt
marked-AreClients listen_fd newfd ((byte, bytes) ∷ later) h =
    (h, marked-AreClients listen_fd newfd later h)

marked-silent :
    (newfd : ℕ) (later : List (ℕ × List ℕ))
    → (accepting (marked newfd later) ≡ []) × (pongs_for (marked newfd later) ≡ [])
marked-silent newfd [] = (refl, refl)
marked-silent newfd ((byte, bytes) ∷ later) = ground (arith, marked-silent newfd later)

module _ (r : Request) (half newfd : ℕ) (later : List (ℕ × List ℕ)) (recvs : List RecvReply)
    (sends : List SendReply) (accepts : List AcceptReply) (oks : List Bool) where
  -- The state behind the send that would block and the accept.
  abbrev pub accepted_late : System UnixState → System UnixState
  accepted_late s = record s {
    locals =
        with_ev epoll_in (newfd, 2)
          (record (s.locals) { recv_buffer = overwrite (r.byte ∷ r.bytes) s.locals.recv_buffer });
    recvs = requests (marked newfd later) ++ recvs;
    sends = sends;
    accepts = accepts;
    oks = oks;
    calls =
        s.calls
        ++ controlled r.sfd false epoll_in_out (r.sfd, 2)
          ∷ nonblocking newfd
          ∷ controlled newfd true epoll_in (newfd, 2)
          ∷ [];
  }

  blocked_then_accepted :
      (s : System UnixState)
      → r.half ≡ 0
      → r.sfd ≢ s.locals.listen_fd
      → s.recvs ≡ requests (r ∷ marked newfd later) ++ recvs
      → s.sends ≡ send_failed eagain ∷ sends
      → s.accepts ≡ accepted newfd ∷ accepts
      → s.oks ≡ true ∷ true ∷ oks
      → unix_events
          (event_of r ∷ record { events = epoll_in; data_u64 = (s.locals.listen_fd, half) } ∷ [])
          s
        ≡ done (tt, accepted_late s)
  unfolding unix_events unix_event unix_read unix_received unix_write stop_waiting unix_sent control
      unix_accepted next_recv send_on next_accept next_ok
  blocked_then_accepted s idle client got full waiting controls = ground (
    arith,
    ==-refl s.locals.listen_fd,
    append_assoc s.calls (controlled r.sfd false epoll_in_out (r.sfd, 2) ∷ [])
        (nonblocking newfd ∷ []),
    append_assoc s.calls (controlled r.sfd false epoll_in_out (r.sfd, 2) ∷ nonblocking newfd ∷ [])
        (controlled newfd true epoll_in (newfd, 2) ∷ []),
  )

  -- At the stream server of the UNIX domain, a connection that is accepted right behind a send that
  -- would block never gets a pong for what it sends: the event that is added for it has 2 in the
  -- upper half of its data, left there by the connection that waits to write, and it waits for
  -- reading only; in any later batch of readable events with this data, each with some bytes, the
  -- server makes no call but the receives. Conditions: both `epoll_ctl` calls succeed, and neither
  -- connection has the listening socket's descriptor.
  pub late_connection_starves :
      (s : System UnixState)
      → r.half ≡ 0
      → r.sfd ≢ s.locals.listen_fd
      → newfd ≢ s.locals.listen_fd
      → s.recvs ≡ requests (r ∷ marked newfd later) ++ recvs
      → s.sends ≡ send_failed eagain ∷ sends
      → s.accepts ≡ accepted newfd ∷ accepts
      → s.oks ≡ true ∷ true ∷ oks
      → (t : System UnixState) × (u : System UnixState) × (unix_events
            (event_of r ∷ record { events = epoll_in; data_u64 = (s.locals.listen_fd, half) } ∷ [])
            s
          ≡ done (tt, t))
        × (t.calls
            ≡ s.calls
              ++ controlled r.sfd false epoll_in_out (r.sfd, 2)
                ∷ nonblocking newfd
                ∷ controlled newfd true epoll_in (newfd, 2)
                ∷ [])
        × (unix_events (events_of (marked newfd later)) t ≡ done (tt, u))
        × (u.calls ≡ t.calls)
  late_connection_starves s idle client apart got full waiting controls =
      let t = accepted_late s in
      let rs = marked newfd later in
      let (none_sent, no_pongs) = marked-silent newfd later in
      (
        t,
        through recvs sends rs t,
        blocked_then_accepted s idle client got full waiting controls,
        refl,
        unix_events-pongs rs t recvs sends (marked-AreClients s.locals.listen_fd newfd later apart)
            refl (ground (arith, none_sent)),
        ap (λ (calls : List Call). t.calls ++ calls) no_pongs ∙ append-nil t.calls,
      )
