-- ===== src/Checker/Udp/Answers.antt =====
-- Rounds of nwc_udp_server.c (04-24_UNIX异步IO机制) over datagrams that arrive.
use imooc_sock_core_tech.Prelude.{
  ℕ, ◌≡◌, ◌≢◌, refl, Bool, false, ◌||◌, List, [], ◌∷◌, ◌++◌, arith, append_assoc, append-nil,
  length,
}
use imooc_sock_core_tech.Outcome.{done}
use imooc_sock_core_tech.World.{SockAddr, SendReply, sent}
use imooc_sock_core_tech.Checker.{pong_message, DatagramReply, datagram, Call, sent_to, System}
use imooc_sock_core_tech.Checker.NwcLinks.{same_address}
use imooc_sock_core_tech.Checker.Udp.{UdpState, note_client, udp_round, udp_rounds}

abbrev pub Arrivals : Type 0
Arrivals = List (List ℕ × SockAddr)

abbrev pub arriving : Arrivals → List DatagramReply → List DatagramReply
arriving [] rest = rest
arriving ((bytes, from) ∷ ds) rest = datagram bytes from ∷ arriving ds rest

abbrev pub sends_for : Arrivals → List SendReply → List SendReply
sends_for [] rest = rest
sends_for (d ∷ ds) rest = sent 4 ∷ sends_for ds rest

abbrev pub replies_to : (sock_fd : ℕ) → Arrivals → List Call
replies_to sock_fd [] = []
replies_to sock_fd ((bytes, from) ∷ ds) = sent_to sock_fd pong_message from ∷ replies_to sock_fd ds

-- Some address in the list is the one.
abbrev pub knows : SockAddr → List SockAddr → Bool
knows addr [] = false
knows addr (x ∷ xs) = same_address x addr || knows addr xs

abbrev pub came_from : SockAddr → Arrivals → Bool
came_from addr [] = false
came_from addr ((bytes, from) ∷ ds) = same_address from addr || came_from addr ds

-- No address stands in the list twice.
abbrev pub AreDistinct : List SockAddr → Type 0
AreDistinct [] = Unit
AreDistinct (x ∷ xs) = (knows x xs ≡ false) × AreDistinct xs

knows-note_client :
    (a addr : SockAddr) (xs : List SockAddr)
    → knows a (note_client addr xs) ≡ (knows a xs || same_address addr a)
unfolding note_client
knows-note_client a addr [] = ground arith
knows-note_client a addr (x ∷ xs) = ground (arith, knows-note_client a addr xs)

note_client-AreDistinct :
    (addr : SockAddr) (xs : List SockAddr) → AreDistinct xs → AreDistinct (note_client addr xs)
unfolding note_client
note_client-AreDistinct addr [] h = ground arith
note_client-AreDistinct addr (x ∷ xs) h =
    ground (arith, note_client-AreDistinct addr xs h.1, knows-note_client x addr xs)

module _ (echo_mode : ℕ) (answers : echo_mode ≢ 2) (receives : echo_mode ≢ 3)
    (rest : List DatagramReply) (sends : List SendReply) where
  -- The state after a datagram.
  after_datagram : List ℕ → SockAddr → Arrivals → System UdpState → System UdpState
  after_datagram bytes from ds s = record s {
    locals = record (s.locals) {
      client_addr = from;
      nwc_hdr = note_client from s.locals.nwc_hdr;
      datagrams = arriving ds rest;
    };
    sends = sends_for ds sends;
    calls = s.calls ++ sent_to s.locals.sock_fd pong_message from ∷ [];
  }

  udp_round-answers :
      (bytes : List ℕ) (from : SockAddr) (ds : Arrivals) (s : System UdpState)
      → s.locals.datagrams ≡ arriving ((bytes, from) ∷ ds) rest
      → s.sends ≡ sends_for ((bytes, from) ∷ ds) sends
      → udp_round echo_mode s ≡ done (tt, after_datagram bytes from ds s)
  unfolding after_datagram udp_round
  udp_round-answers bytes from ds s d e = ground arith

  -- As many rounds of the UDP server as there are datagrams, in the echo modes other than 2 and 3
  -- and where every send succeeds, end and send exactly one pong to the sender of each, in order;
  -- the known addresses are distinct again if they were, and exactly the addresses that were known
  -- or that a datagram came from are known afterwards.
  pub udp_rounds-answers :
      (ds : Arrivals) (s : System UdpState)
      → s.locals.datagrams ≡ arriving ds rest
      → s.sends ≡ sends_for ds sends
      → AreDistinct s.locals.nwc_hdr
      → (t : System UdpState) × (udp_rounds echo_mode (length ds) s ≡ done (tt, t))
        × (t.calls ≡ s.calls ++ replies_to s.locals.sock_fd ds)
        × AreDistinct t.locals.nwc_hdr
        × ((a : SockAddr) → knows a t.locals.nwc_hdr ≡ (knows a s.locals.nwc_hdr || came_from a ds))
  unfolding udp_rounds after_datagram
  udp_rounds-answers [] s d e h =
      (s, refl, ground (arith, append-nil s.calls), h, λ a. ground arith)
  udp_rounds-answers ((bytes, from) ∷ ds) s d e h =
      let known = s.locals.nwc_hdr in
      let (t, runs, calls, apart, knowing) =
        udp_rounds-answers ds (after_datagram bytes from ds s) (refl) (refl)
          (note_client-AreDistinct from known h) in
      (
        t,
        ground (arith, udp_round-answers bytes from ds s d e, runs),
        ground (
          arith,
          calls,
          append_assoc s.calls (sent_to s.locals.sock_fd pong_message from ∷ [])
              (replies_to s.locals.sock_fd ds),
        ),
        apart,
        λ a. ground (arith, knowing a, knows-note_client a from known),
      )
