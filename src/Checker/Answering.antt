-- ===== src/Checker/Answering.antt =====
-- What `worker` of nwchecker_server_multiprocess.c (04-24_UNIX异步IO机制) does with its connections:
-- the pass that frees the closed ones and fills the sets, and the pass that answers.
use imooc_sock_core_tech.Prelude.{
  ℕ, Bool, true, false, ◌||◌, ◌&&◌, not, none, some, List, [], ◌∷◌, ◌==◌, if◌then◌else◌,
}
use imooc_sock_core_tech.Types.{eintr, eagain}
use imooc_sock_core_tech.World.{received, recv_failed, sent, send_failed}
use imooc_sock_core_tech.Checker.{
  Connection, reads, writes, keep_read, add_write, pong_message, overwrite, closed, Cmd, pure,
  ◌>>=◌, ◌>>◌, on_fd, next_recv, send_on, FdSets, raise_max, is_set,
}

-- The sets with the descriptor of a connection put in.
unfoldable pub watch : (fd events : ℕ) → FdSets → FdSets
watch fd events sets = record {
  readfds = if reads events then fd ∷ sets.readfds else sets.readfds;
  writefds = if writes events then fd ∷ sets.writefds else sets.writefds;
  max_fd = raise_max fd sets.max_fd;
}

-- The connections that stay, and the sets.
unfoldable pub watch_all : List Connection → FdSets → List Connection × FdSets
unfolding watch
watch_all [] sets = ([], sets)
watch_all (nwc ∷ nwcs) sets = elim (nwc.fd) [
  | none ↦ watch_all nwcs sets
  | some fd ↦ let rest = watch_all nwcs (watch fd nwc.events sets) in (nwc ∷ rest.0, rest.1)
]

-- `!(nwc->events & 2) || FD_ISSET(nwc->fd, &writefds)`
abbrev pub may_send : (stray : List ℕ → Bool) (writefds : List ℕ) → Connection → Bool
may_send stray writefds nwc = not (writes nwc.events) || is_set stray nwc.fd writefds

module _ {L : Type 0} where
  -- `destroy_all_nwc`, as far as descriptors go.
  unfoldable pub destroy_all : List Connection → Cmd L (Unit {0})
  destroy_all [] = pure tt
  destroy_all (nwc ∷ nwcs) = on_fd closed nwc.fd >> destroy_all nwcs

  -- `close(nwc->fd); nwc->fd = -1; break;`
  unfoldable pub drop_connection : Connection → Cmd L (Bool × Connection)
  drop_connection nwc = do on_fd closed nwc.fd; pure (false, record nwc { fd = none })

  -- `false`: the pass breaks off.
  unfoldable pub receive_ping : Connection → Cmd L (Bool × Connection)
  unfolding drop_connection next_recv
  receive_ping nwc = next_recv >>= λ reply. elim reply [
    | received bytes ↦ elim bytes [
      | [] ↦ drop_connection nwc
      | b ∷ bs ↦ pure (true, record nwc { recv_buffer = overwrite (b ∷ bs) nwc.recv_buffer })
    ]
    | recv_failed errno ↦
        if (errno == eintr) || (errno == eagain) then pure (true, nwc) else drop_connection nwc
  ]

  unfoldable pub answer_pong : Connection → Cmd L (Bool × Connection)
  unfolding drop_connection send_on
  answer_pong nwc = send_on nwc.fd pong_message >>= λ reply. elim reply [
    | sent n ↦ pure (true, record nwc { events = keep_read nwc.events })
    | send_failed errno ↦
        if errno == eintr
        then pure (true, record nwc { events = keep_read nwc.events })
        else if errno == eagain
        then pure (true, record nwc { events = add_write (keep_read nwc.events) })
        else drop_connection (record nwc { events = keep_read nwc.events })
  ]

  module _ (stray : List ℕ → Bool) (writefds : List ℕ) where
    -- `false` in front: the pass has broken off already.
    unfoldable pub answer_turn : Bool × Connection → Cmd L (Bool × Connection)
    unfolding answer_pong
    answer_turn (go, nwc) =
        if go && may_send stray writefds nwc then answer_pong nwc else pure (go, nwc)

  module _ (stray : List ℕ → Bool) (readfds writefds : List ℕ) where
    -- The body of the pass.
    unfoldable pub serve : Connection → Cmd L (Bool × Connection)
    unfolding receive_ping answer_turn
    serve nwc =
        (if is_set stray nwc.fd readfds then receive_ping nwc else pure (true, nwc))
        >>= answer_turn stray writefds

    unfoldable pub serve_all : List Connection → Cmd L (List Connection)
    unfolding serve
    serve_all [] = pure []
    serve_all (nwc ∷ nwcs) = serve nwc >>= λ r.
        if r.0 then (serve_all nwcs >>= λ rest. pure (r.1 ∷ rest)) else pure (r.1 ∷ nwcs)
