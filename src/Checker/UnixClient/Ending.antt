-- ===== src/Checker/UnixClient/Ending.antt =====
-- How unix_stream_client.c of 04-24_UNIX异步IO机制 ends, whatever its calls answer.
use imooc_sock_core_tech.Prelude.{
  ℕ, zero, suc, ◌+◌, ◌-◌, ◌*◌, ◌%◌, ◌^◌, ◌≤◌, ◌<◌, ◌≡◌, refl, Bool, true, false, Option, some, List,
  [], ◌∷◌, ◌++◌, arith, length, take, ap, ◌∙◌,
}
use imooc_sock_core_tech.Prelude.Int.{ℤ, pos, negsuc}
use imooc_sock_core_tech.Outcome.{done}
use imooc_sock_core_tech.World.{RecvReply, received, recv_failed, SendReply, sent, send_failed}
use imooc_sock_core_tech.Checker.{
  Call, sent_bytes, closed, System, next_ok, next_recv, next_socket, send_on,
}
use imooc_sock_core_tech.Checker.Buffers.{ClientArgs, alloc_buffer, positive_or}
use imooc_sock_core_tech.Checker.ClientRounds.{count_sent, count_sent-append}
use imooc_sock_core_tech.Checker.UnixClient.{
  UnixClientState, add_message, unix_ping, got_pong, unix_pong, unix_count_down, unix_counted,
  unix_client_round, unix_client_loop, unix_variables, unix_connected, run_unix_stream_client,
}

module _ (slot : ℕ) where
  -- The state once a message went out and an answer was taken.
  abbrev exchanged :
      (n : ℕ) → List SendReply → List RecvReply → System UnixClientState → System UnixClientState
  exchanged n sends recvs s = record s {
    locals = add_message s.locals;
    sends = sends;
    recvs = recvs;
    calls = s.calls ++ sent_bytes s.locals.sock_fd (take n s.locals.send_msg) ∷ [];
  }

  refused :
      (errno : ℕ) (sends : List SendReply) (s : System UnixClientState)
      → s.sends ≡ send_failed errno ∷ sends
      → unix_client_round false slot s ≡ done (false, record s { sends = sends })
  unfolding unix_client_round unix_ping send_on
  refused errno sends s e = ground arith

  unanswered :
      (n : ℕ) (sends : List SendReply) (r : RecvReply) (recvs : List RecvReply)
      (s : System UnixClientState)
      → s.sends ≡ sent n ∷ sends
      → s.recvs ≡ r ∷ recvs
      → got_pong r ≡ false
      → unix_client_round false slot s ≡ done (false, exchanged n sends recvs s)
  unfolding unix_client_round unix_ping send_on unix_pong next_recv
  unanswered n sends r recvs s e d bad = ground arith

  answered :
      (n : ℕ) (sends : List SendReply) (r : RecvReply) (recvs : List RecvReply)
      (s : System UnixClientState)
      → s.sends ≡ sent n ∷ sends
      → s.recvs ≡ r ∷ recvs
      → got_pong r ≡ true
      → let next = unix_count_down false slot (add_message s.locals) in
        unix_client_round false slot s
        ≡ done (next.0, record (exchanged n sends recvs s) { locals = next.1 })
  unfolding unix_client_round unix_ping send_on unix_pong next_recv unix_counted
  answered n sends r recvs s e d good = ground arith

  -- The loop from `s` ends, with at most `n` pings, which the total accounts for.
  EndsWithin : (n fuel : ℕ) → System UnixClientState → Type 0
  EndsWithin n fuel s =
      (t : System UnixClientState) × (k : ℕ) × (unix_client_loop false slot fuel s ≡ done (tt, t))
      × (k ≤ n)
      × (count_sent t.calls ≡ count_sent s.calls + k)
      × (t.locals.total_send_size
          ≡ (s.locals.total_send_size + k * length s.locals.send_msg) % 2 ^ 64)

  one_sent :
      (fd : ℕ) (bytes : List ℕ) (calls : List Call)
      → count_sent (calls ++ sent_bytes fd bytes ∷ []) ≡ count_sent calls + 1
  one_sent fd bytes calls = count_sent-append calls (sent_bytes fd bytes ∷ [])

  refused-EndsWithin :
      (m k errno : ℕ) (sends : List SendReply) (s : System UnixClientState)
      → s.sends ≡ send_failed errno ∷ sends
      → s.locals.total_send_size < 2 ^ 64
      → EndsWithin (suc m) (suc k) s
  unfolding EndsWithin unix_client_loop
  refused-EndsWithin m k errno sends s e small = (
    record s { sends = sends },
    0,
    ground (arith, refused errno sends s e),
    omega arith,
    omega arith,
    omega arith,
  )

  unanswered-EndsWithin :
      (m k n : ℕ) (sends : List SendReply) (r : RecvReply) (recvs : List RecvReply)
      (s : System UnixClientState)
      → s.sends ≡ sent n ∷ sends
      → s.recvs ≡ r ∷ recvs
      → got_pong r ≡ false
      → EndsWithin (suc m) (suc k) s
  unfolding EndsWithin unix_client_loop
  unanswered-EndsWithin m k n sends r recvs s e d bad = (
    exchanged n sends recvs s,
    1,
    ground (arith, unanswered n sends r recvs s e d bad),
    omega arith,
    one_sent s.locals.sock_fd (take n s.locals.send_msg) s.calls,
    omega arith,
  )

  last-EndsWithin :
      (k n : ℕ) (sends : List SendReply) (r : RecvReply) (recvs : List RecvReply)
      (s : System UnixClientState)
      → s.sends ≡ sent n ∷ sends
      → s.recvs ≡ r ∷ recvs
      → got_pong r ≡ true
      → s.locals.loop_count ≡ 1
      → EndsWithin 1 (suc k) s
  unfolding EndsWithin unix_client_loop unix_count_down
  last-EndsWithin k n sends r recvs s e d good last = (
    record (exchanged n sends recvs s) {
      locals = record (add_message s.locals) { loop_count = 0 };
    },
    1,
    ground (arith, answered n sends r recvs s e d good),
    omega arith,
    one_sent s.locals.sock_fd (take n s.locals.send_msg) s.calls,
    omega arith,
  )

  count_down-goes_on :
      (m : ℕ) (p : UnixClientState)
      → p.loop_count ≡ suc (suc m)
      → suc (suc m) < 2 ^ 32
      → let next = unix_count_down false slot p in
        (next.0 ≡ true)
        × (next.1.loop_count ≡ suc m)
        × (next.1.send_msg ≡ p.send_msg)
        × (next.1.total_send_size ≡ p.total_send_size)
  unfolding unix_count_down
  count_down-goes_on m p counts small = ground arith

  more-EndsWithin :
      (m k n : ℕ) (sends : List SendReply) (r : RecvReply) (recvs : List RecvReply)
      (s : System UnixClientState)
      → s.sends ≡ sent n ∷ sends
      → s.recvs ≡ r ∷ recvs
      → got_pong r ≡ true
      → s.locals.loop_count ≡ suc (suc m)
      → suc (suc m) < 2 ^ 32
      → EndsWithin (suc m) k (record (exchanged n sends recvs s) {
        locals = (unix_count_down false slot (add_message s.locals)).1;
      })
      → EndsWithin (suc (suc m)) (suc k) s
  unfolding EndsWithin unix_client_loop
  more-EndsWithin m k n sends r recvs s e d good counts small (t, j, runs, within, pings, total) =
      let (on, left, same, kept) = count_down-goes_on m (add_message s.locals) counts small in
      (
        t,
        suc j,
        ground (arith, answered n sends r recvs s e d good, on, runs),
        omega arith,
        omega (arith, pings, one_sent s.locals.sock_fd (take n s.locals.send_msg) s.calls),
        ground (arith, total, same, kept),
      )

  loop-EndsWithin :
      (m fuel : ℕ) (sends : List SendReply) (recvs : List RecvReply) (s : System UnixClientState)
      → s.sends ≡ sends
      → s.recvs ≡ recvs
      → s.locals.loop_count ≡ suc m
      → suc m < 2 ^ 32
      → s.locals.total_send_size < 2 ^ 64
      → m < length sends
      → m < length recvs
      → m < fuel
      → EndsWithin (suc m) fuel s
  unfolding unix_count_down got_pong
  loop-EndsWithin m zero sends recvs s e d c w v x y z = absurd (omega arith)
  loop-EndsWithin m (suc k) [] recvs s e d c w v x y z = absurd (omega arith)
  loop-EndsWithin m (suc k) (b ∷ sends) [] s e d c w v x y z = absurd (omega arith)
  loop-EndsWithin m (suc k) (send_failed errno ∷ sends) (r ∷ recvs) s e d c w v x y z =
      refused-EndsWithin m k errno sends s e v
  loop-EndsWithin m (suc k) (sent n ∷ sends) (received [] ∷ recvs) s e d c w v x y z =
      unanswered-EndsWithin m k n sends (received []) recvs s e d refl
  loop-EndsWithin m (suc k) (sent n ∷ sends) (recv_failed errno ∷ recvs) s e d c w v x y z =
      unanswered-EndsWithin m k n sends (recv_failed errno) recvs s e d refl
  loop-EndsWithin zero (suc k) (sent n ∷ sends) (received (b ∷ bs) ∷ recvs) s e d c w v x y z =
      last-EndsWithin k n sends (received (b ∷ bs)) recvs s e d refl c
  loop-EndsWithin (suc m) (suc k) (sent n ∷ sends) (received (b ∷ bs) ∷ recvs) s e d c w v x y z =
      let next = count_down-goes_on m (add_message s.locals) c w in
      more-EndsWithin m k n sends (received (b ∷ bs)) recvs s e d refl c w (
        loop-EndsWithin m k sends recvs
          (record (exchanged n sends recvs s) {
            locals = (unix_count_down false slot (add_message s.locals)).1;
          })
          refl refl next.1 (omega arith) (ground (arith, next)) (omega arith) (omega arith)
          (omega arith))

positive_or-positive : (x : ℤ) → 1 ≤ positive_or 1 x
positive_or-positive (pos zero) = omega arith
positive_or-positive (pos (suc n)) = omega arith
positive_or-positive (negsuc n) = omega arith

from_nothing : (x : ℕ) → 0 + x ≡ x
from_nothing x = omega arith

some_round : (c slot : ℕ) → 1 ≤ slot → suc c * slot ≡ suc (slot - 1 + c * slot)
some_round c slot h = omega (arith, h)

module _ (junk : List ℕ) (fuel : ℕ) (args : ClientArgs) (fd : ℕ) (send_msg path : List ℕ)
    (sockets : List (Option ℕ)) (oks : List Bool) where
  -- A connected stream client of the UNIX domain, of which a positive count of slots is asked, ends
  -- and returns 0 whatever its sends and receives answer, failures and the end of the stream
  -- included, and closes its descriptor as its last call: before that it has sent at most count
  -- times slot size messages, and its total is the bytes of as many whole messages as were sent,
  -- modulo 2^64. The rounds fit 32 bits; fuel for as many rounds, and as many answers to `send` and
  -- to `recv`, are enough.
  pub unix_client_ends :
      (s : System UnixClientState) (c : ℕ)
      → args.count ≡ pos (suc c)
      → suc c * positive_or 1 args.sent_pkgs < 2 ^ 32
      → suc c * positive_or 1 args.sent_pkgs ≤ fuel
      → suc c * positive_or 1 args.sent_pkgs ≤ length s.sends
      → suc c * positive_or 1 args.sent_pkgs ≤ length s.recvs
      → alloc_buffer junk (positive_or 5 args.message_size) ≡ some send_msg
      → s.sockets ≡ some fd ∷ sockets
      → s.oks ≡ true ∷ oks
      → (t : System UnixClientState) × (before : List Call) × (k : ℕ) × (run_unix_stream_client junk
            fuel args
            (some path)
            s
          ≡ done (pos 0, t))
        × (k ≤ suc c * positive_or 1 args.sent_pkgs)
        × (t.calls ≡ before ++ closed fd ∷ [])
        × (count_sent before ≡ count_sent s.calls + k)
        × (t.locals.total_send_size ≡ k * length send_msg % 2 ^ 64)
  unfolding run_unix_stream_client unix_connected EndsWithin next_socket next_ok
  unix_client_ends s c counts small enough sends recvs buffer made ok =
      let slot = positive_or 1 args.sent_pkgs in
      let s1 : System UnixClientState = record s {
        locals = unix_variables args fd send_msg;
        sockets = sockets;
        oks = oks;
      } in
      let n = suc c * slot in
      let some_rounds = some_round c slot (positive_or-positive args.sent_pkgs) in
      let m = slot - 1 + c * slot in
      let counted : s1.locals.loop_count ≡ suc m =
        ap (λ (x : ℕ). x * slot % 2 ^ 32) (ap (positive_or 0) counts) ∙ omega arith in
      let (t, k, runs, within, pings, total) =
        loop-EndsWithin slot m fuel s.sends s.recvs s1 refl refl counted (omega arith) (omega arith)
          (omega arith) (omega arith) (omega arith) in
      (
        record t { calls = t.calls ++ closed fd ∷ [] },
        t.calls,
        k,
        ground (arith, runs, counts, buffer),
        omega arith,
        refl,
        pings,
        total ∙ ap (λ (x : ℕ). x % 2 ^ 64) (from_nothing (k * length send_msg)),
      )
