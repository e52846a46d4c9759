-- ===== src/Checker/Serving.antt =====
-- The pass that answers the connections of a worker (nwchecker_server_multiprocess.c).
use imooc_sock_core_tech.Prelude.{
  ℕ, ◌≡◌, Bool, true, not, ◌||◌, some, List, [], ◌∷◌, ◌++◌, map, arith, has, append_assoc,
  append-nil, if◌then◌else◌,
}
use imooc_sock_core_tech.Outcome.{done}
use imooc_sock_core_tech.World.{RecvReply, received, SendReply, sent}
use imooc_sock_core_tech.Checker.{
  Connection, writes, keep_read, pong_message, overwrite, sent_bytes, Call, System,
}
use imooc_sock_core_tech.Checker.Answering.{serve, serve_all}

-- A connection with a descriptor, the bytes that the system has for it, and what is to come of it.
pub record Turn : Type 0 where
  pub nwc : Connection
  pub fd : ℕ
  pub byte : ℕ
  pub bytes : List ℕ

module _ (readfds writefds : List ℕ) where
  -- The answers that the turns take, in order.
  abbrev pub recvs_of : List Turn → List RecvReply
  recvs_of [] = []
  recvs_of (t ∷ ts) =
      if has t.fd readfds then received (t.byte ∷ t.bytes) ∷ recvs_of ts else recvs_of ts

  abbrev pub answers : Turn → Bool
  answers t = not (writes t.nwc.events) || has t.fd writefds

  abbrev pub sends_of : List Turn → List SendReply
  sends_of [] = []
  sends_of (t ∷ ts) = if answers t then sent 4 ∷ sends_of ts else sends_of ts

  abbrev pub after_recv : Turn → Connection
  after_recv t =
      if has t.fd readfds
      then record (t.nwc) { recv_buffer = overwrite (t.byte ∷ t.bytes) t.nwc.recv_buffer }
      else t.nwc

  abbrev pub after_turn : Turn → Connection
  after_turn t =
      if answers t then record (after_recv t) { events = keep_read t.nwc.events } else after_recv t

  abbrev pub pongs_of : List Turn → List Call
  pongs_of [] = []
  pongs_of (t ∷ ts) = if answers t then sent_bytes t.fd pong_message ∷ pongs_of ts else pongs_of ts

abbrev pub AreOpen : List Turn → Type 0
AreOpen [] = Unit
AreOpen (t ∷ ts) = (t.nwc.fd ≡ some t.fd) × AreOpen ts

module _ {L : Type 0} (stray : List ℕ → Bool) (readfds writefds : List ℕ) where
  serve-turn :
      (t : Turn) (s : System L) (recvs : List RecvReply) (sends : List SendReply)
      → t.nwc.fd ≡ some t.fd
      → s.recvs ≡ recvs_of readfds writefds (t ∷ []) ++ recvs
      → s.sends ≡ sends_of readfds writefds (t ∷ []) ++ sends
      → serve stray readfds writefds t.nwc s
        ≡ done (
          (true, after_turn readfds writefds t),
          record s {
            recvs = recvs;
            sends = sends;
            calls = s.calls ++ pongs_of readfds writefds (t ∷ []);
          },
        )
  unfolding serve
  serve-turn t s recvs sends open_fd r d = ground (arith, append-nil s.calls)

  -- A pass of the multi-process server over open connections, where every readable one receives
  -- some bytes and every send accepts the four bytes, ends with these effects and no others: it
  -- sends a pong on every connection, in order, that does not wait to become writable or has become
  -- writable, takes the received bytes into the buffers, and leaves in the events of those that
  -- were answered only the read bit.
  pub serve_all-pongs :
      (ts : List Turn) (s : System L) (recvs : List RecvReply) (sends : List SendReply)
      → AreOpen ts
      → s.recvs ≡ recvs_of readfds writefds ts ++ recvs
      → s.sends ≡ sends_of readfds writefds ts ++ sends
      → serve_all stray readfds writefds (map (λ (t : Turn). t.nwc) ts) s
        ≡ done (
          map (after_turn readfds writefds) ts,
          record s {
            recvs = recvs;
            sends = sends;
            calls = s.calls ++ pongs_of readfds writefds ts;
          },
        )
  unfolding serve_all
  serve_all-pongs [] s recvs sends o r d = ground (arith, append-nil s.calls)
  serve_all-pongs (t ∷ ts) s recvs sends o r d =
      let recvs' = recvs_of readfds writefds ts ++ recvs in
      let sends' = sends_of readfds writefds ts ++ sends in
      let mine = pongs_of readfds writefds (t ∷ []) in
      ground (
        arith,
        serve-turn t s recvs' sends' o.0,
        serve_all-pongs ts (record s { recvs = recvs'; sends = sends'; calls = s.calls ++ mine })
            recvs sends o.1,
        append_assoc s.calls mine (pongs_of readfds writefds ts),
        append-nil s.calls,
      )
