-- ===== src/Checker/UnixStream/Requests.antt =====
-- Batches of requests at unix_stream_server.c of 04-24_UNIX异步IO机制.
use imooc_sock_core_tech.Prelude.{
  ℕ, ◌≡◌, ◌≢◌, true, List, [], ◌∷◌, ◌++◌, ◌==◌, arith, append_assoc, append-nil, if◌then◌else◌,
}
use imooc_sock_core_tech.Outcome.{done}
use imooc_sock_core_tech.World.{RecvReply, received, SendReply, sent}
use imooc_sock_core_tech.Checker.{
  overwrite, pong_message, Call, sent_bytes, System, next_recv, send_on,
}
use imooc_sock_core_tech.Checker.UnixStream.{
  EpollEvent, UnixState, unix_received, unix_read, stop_waiting, unix_sent, unix_write, unix_event,
  unix_events, epoll_in,
}

-- A readable connection, the upper half of the data that the kernel keeps for it, and what it sent.
pub record Request : Type 0 where
  pub sfd : ℕ
  pub half : ℕ
  pub byte : ℕ
  pub bytes : List ℕ

abbrev pub event_of : Request → EpollEvent
event_of r = record { events = epoll_in; data_u64 = (r.sfd, r.half) }

abbrev pub events_of : List Request → List EpollEvent
events_of [] = []
events_of (r ∷ rs) = event_of r ∷ events_of rs

abbrev pub requests : List Request → List RecvReply
requests [] = []
requests (r ∷ rs) = received (r.byte ∷ r.bytes) ∷ requests rs

abbrev pub accepting : List Request → List SendReply
accepting [] = []
accepting (r ∷ rs) = if r.half == 0 then sent 4 ∷ accepting rs else accepting rs

abbrev pub pongs_for : List Request → List Call
pongs_for [] = []
pongs_for (r ∷ rs) =
    if r.half == 0 then sent_bytes r.sfd pong_message ∷ pongs_for rs else pongs_for rs

abbrev pub buffer_after : List Request → List ℕ → List ℕ
buffer_after [] buffer = buffer
buffer_after (r ∷ rs) buffer = buffer_after rs (overwrite (r.byte ∷ r.bytes) buffer)

-- None of them is the listening socket.
abbrev pub AreClients : (listen_fd : ℕ) → List Request → Type 0
AreClients listen_fd [] = Unit
AreClients listen_fd (r ∷ rs) = (r.sfd ≢ listen_fd) × AreClients listen_fd rs

module _ (recvs : List RecvReply) (sends : List SendReply) where
  -- The state once the requests are through.
  abbrev pub through : List Request → System UnixState → System UnixState
  through rs s = record s {
    locals = record (s.locals) { recv_buffer = buffer_after rs s.locals.recv_buffer };
    recvs = recvs;
    sends = sends;
    calls = s.calls ++ pongs_for rs;
  }

unix_event-pong :
    (r : Request) (s : System UnixState) (recvs : List RecvReply) (sends : List SendReply)
    → r.sfd ≢ s.locals.listen_fd
    → s.recvs ≡ requests (r ∷ []) ++ recvs
    → s.sends ≡ accepting (r ∷ []) ++ sends
    → unix_event (event_of r) s ≡ done (true, through recvs sends (r ∷ []) s)
unfolding unix_event unix_read unix_received unix_write stop_waiting unix_sent next_recv send_on
unix_event-pong r s recvs sends client got free = ground (arith, append-nil s.calls)

-- A batch of readable connections at the stream server of the UNIX domain, none of them its
-- listening socket, where each has sent some bytes and the sends accept the four bytes: the batch
-- ends, and a pong goes, in order, to exactly those connections whose data has 0 in its upper half;
-- the bytes are read into the buffer one after the other, and nothing else changes.
pub unix_events-pongs :
    (rs : List Request) (s : System UnixState) (recvs : List RecvReply) (sends : List SendReply)
    → AreClients s.locals.listen_fd rs
    → s.recvs ≡ requests rs ++ recvs
    → s.sends ≡ accepting rs ++ sends
    → unix_events (events_of rs) s ≡ done (tt, through recvs sends rs s)
unfolding unix_events
unix_events-pongs [] s recvs sends clients got free = ground (arith, append-nil s.calls)
unix_events-pongs (r ∷ rs) s recvs sends clients got free =
    let recvs' = requests rs ++ recvs in
    let sends' = accepting rs ++ sends in
    let mine = pongs_for (r ∷ []) in
    ground (
      arith,
      unix_event-pong r s recvs' sends' clients.0,
      unix_events-pongs rs (through recvs' sends' (r ∷ []) s) recvs sends clients.1,
      append_assoc s.calls mine (pongs_for rs),
      append-nil s.calls,
    )
