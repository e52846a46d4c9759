-- ===== src/Checker/Bursts.antt =====
-- A round of sigio_udp_server.c (04-24_UNIX异步IO机制) over the datagrams of one signal.
use imooc_sock_core_tech.Prelude.{
  ℕ, ◌+◌, ◌≡◌, refl, Option, none, some, List, [], ◌∷◌, ◌++◌, arith, append_assoc, append-nil,
  Option-cases, inl, inr,
}
use imooc_sock_core_tech.Outcome.{done}
use imooc_sock_core_tech.World.{SockAddr, SendReply, sent}
use imooc_sock_core_tech.Checker.{
  pong_message, DatagramReply, datagram, recvfrom_failed, Call, sent_to, closed, System, send_to,
}
use imooc_sock_core_tech.Checker.Sigio.{
  Waiting, SigioState, sigio_handler, sigio_answer, wait_for_signal, sigio_round,
}

abbrev pub Datagrams : Type 0
Datagrams = List (List ℕ × SockAddr)

-- The answers of `recvfrom`: the datagrams, and then a failure.
abbrev pub burst : Datagrams → (errno : ℕ) → List DatagramReply → List DatagramReply
burst [] errno rest = recvfrom_failed errno ∷ rest
burst ((bytes, from) ∷ ds) errno rest = datagram bytes from ∷ burst ds errno rest

abbrev pub waiting_for : (left_in_fd : ℕ → Option ℕ) → ℕ → Datagrams → List Waiting
waiting_for left_in_fd a [] = []
waiting_for left_in_fd a ((bytes, from) ∷ ds) =
    record { addr = from; recv_buffer = bytes; fd = left_in_fd a }
    ∷ waiting_for left_in_fd (a + 1) ds

abbrev pub sends_for : Datagrams → List SendReply → List SendReply
sends_for [] rest = rest
sends_for (d ∷ ds) rest = sent 4 ∷ sends_for ds rest

abbrev pub close_of : Option ℕ → List Call
close_of none = []
close_of (some fd) = closed fd ∷ []

-- A reply to each, and a close of whatever descriptor stood in the object.
abbrev pub replies_for : (sock_fd : ℕ) → (left_in_fd : ℕ → Option ℕ) → ℕ → Datagrams → List Call
replies_for sock_fd left_in_fd a [] = []
replies_for sock_fd left_in_fd a ((bytes, from) ∷ ds) =
    sent_to sock_fd pong_message from ∷ close_of (left_in_fd a)
    ++ replies_for sock_fd left_in_fd (a + 1) ds

-- The object made behind the last datagram.
abbrev pub behind : ℕ → Datagrams → ℕ
behind a [] = a
behind a (d ∷ ds) = behind (a + 1) ds

handler-takes :
    (ds : Datagrams) (errno : ℕ) (rest : List DatagramReply) (s : System SigioState)
    → sigio_handler (burst ds errno rest) s
      ≡ done (
        tt,
        record s {
          locals = record (s.locals) {
            nwc_hdr = s.locals.nwc_hdr ++ waiting_for s.locals.left_in_fd s.locals.allocated ds;
            datagrams = rest;
            allocated = behind s.locals.allocated ds + 1;
          };
          calls = s.calls ++ close_of (s.locals.left_in_fd (behind s.locals.allocated ds));
        },
      )
unfolding sigio_handler
handler-takes [] errno rest s = elim (Option-cases (s.locals.left_in_fd s.locals.allocated)) [
  | inl e ↦ ground (arith, append-nil s.locals.nwc_hdr, append-nil s.calls)
  | inr (fd, e) ↦ ground (arith, append-nil s.locals.nwc_hdr)
]
handler-takes ((bytes, from) ∷ ds) errno rest s =
    let p = s.locals in
    let w : Waiting = record { addr = from; recv_buffer = bytes; fd = p.left_in_fd p.allocated } in
    let q : SigioState = record p {
      nwc_hdr = p.nwc_hdr ++ w ∷ [];
      datagrams = burst ds errno rest;
      allocated = p.allocated + 1;
    } in
    ground (
      arith,
      handler-takes ds errno rest (record s { locals = q }),
      append_assoc p.nwc_hdr (w ∷ []) (waiting_for p.left_in_fd (p.allocated + 1) ds),
    )

answer-replies :
    (ds : Datagrams) (sock_fd a : ℕ) (left_in_fd : ℕ → Option ℕ) (sends : List SendReply)
    (s : System SigioState)
    → s.sends ≡ sends_for ds sends
    → sigio_answer sock_fd (waiting_for left_in_fd a ds) s
      ≡ done
          (tt, record s { sends = sends; calls = s.calls ++ replies_for sock_fd left_in_fd a ds })
unfolding sigio_answer send_to
answer-replies [] sock_fd a left_in_fd sends s e = ground (arith, append-nil s.calls)
answer-replies ((bytes, from) ∷ ds) sock_fd a left_in_fd sends s e =
    let answered = s.calls ++ sent_to sock_fd pong_message from ∷ [] in
    let rest = replies_for sock_fd left_in_fd (a + 1) ds in
    let after = λ (calls : List Call). record s { sends = sends_for ds sends; calls = calls } in
    elim (Option-cases (left_in_fd a)) [
      | inl none_left ↦ ground (
        arith,
        answer-replies ds sock_fd (a + 1) left_in_fd sends (after answered) refl,
        append_assoc s.calls (sent_to sock_fd pong_message from ∷ []) rest,
      )
      | inr (fd, stale) ↦ ground (
        arith,
        answer-replies ds sock_fd (a + 1) left_in_fd sends (after (answered ++ closed fd ∷ []))
            refl,
        append_assoc answered (closed fd ∷ []) rest,
        append_assoc s.calls (sent_to sock_fd pong_message from ∷ []) (closed fd ∷ rest),
      )
    ]

module _ (ds : Datagrams) (errno : ℕ) (rest : List DatagramReply) (sends : List SendReply) where
  -- A round of the signal-driven server that starts with an empty list and is woken for a burst of
  -- datagrams behind which `recvfrom` fails, where every send succeeds, ends and sends one pong to
  -- the sender of each, in order, and its list is empty again. The only other calls are closes: of
  -- whatever number each freed object held as its descriptor, which the code never sets, among them
  -- the object that was made for the failed `recvfrom`.
  pub sigio_round-replies :
      (s : System SigioState)
      → s.locals.nwc_hdr ≡ []
      → s.locals.datagrams ≡ burst ds errno rest
      → s.sends ≡ sends_for ds sends
      → (t : System SigioState) × (sigio_round s ≡ done (tt, t))
        × (t.locals.nwc_hdr ≡ [])
        × (t.locals.datagrams ≡ rest)
        × (t.calls
            ≡ s.calls
              ++ (close_of (s.locals.left_in_fd (behind s.locals.allocated ds))
                  ++ replies_for s.locals.sock_fd s.locals.left_in_fd s.locals.allocated ds))
  unfolding sigio_round wait_for_signal
  sigio_round-replies s idle arriving answers =
      let p = s.locals in
      let freed = close_of (p.left_in_fd (behind p.allocated ds)) in
      let q : SigioState = record p {
        nwc_hdr = [];
        datagrams = rest;
        allocated = behind p.allocated ds + 1;
      } in
      let s1 : System SigioState = record s { locals = q; calls = s.calls ++ freed } in
      let replies = replies_for p.sock_fd p.left_in_fd p.allocated ds in
      (
        record s1 { sends = sends; calls = s1.calls ++ replies },
        ground (
          arith,
          handler-takes ds errno rest s,
          answer-replies ds p.sock_fd p.allocated p.left_in_fd sends s1 answers,
        ),
        refl,
        refl,
        append_assoc s.calls freed replies,
      )
