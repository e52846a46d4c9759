-- ===== src/Checker/ClientRounds.antt =====
-- The rounds of the TCP client (nwchecker_client.c of 04-24_UNIX异步IO机制) on a connected socket.
use imooc_sock_core_tech.Prelude.{
  ℕ, zero, suc, ◌+◌, ◌*◌, ◌%◌, ◌^◌, ◌<◌, ◌≡◌, refl, sym, ap, ◌∙◌, true, false, not, none, some,
  List, [], ◌∷◌, ◌++◌, arith, has, length, take-all, ◌==◌, if◌then◌else◌,
}
use imooc_sock_core_tech.Outcome.{done}
use imooc_sock_core_tech.World.{RecvReply, received, SendReply, sent}
use imooc_sock_core_tech.Checker.{
  Call, sent_bytes, sent_to, posted, nonblocking, reuse_address, bound_to, listens, selected,
  unlinked, named, controlled, closed, System, SelectReply, ready, next_select, next_recv, send_on,
}
use imooc_sock_core_tech.Checker.Client.{
  ClientState, proceed, finish_connect, exchange, client_sent, client_recv, client_received,
  count_down, count_round, client_selected, client_round, client_loop,
}

-- A round's answers: the sets of `select`, and the bytes that wait at a readable socket.
pub record Answer : Type 0 where
  pub readfds : List ℕ
  pub writefds : List ℕ
  pub left : ℕ × ℕ
  pub byte : ℕ
  pub bytes : List ℕ

abbrev pub selects_of : List Answer → List SelectReply
selects_of [] = []
selects_of (a ∷ as') = ready a.readfds a.writefds a.left ∷ selects_of as'

-- Each send accepts all bytes.
abbrev pub full_sends : (size : ℕ) → List Answer → List SendReply
full_sends size [] = []
full_sends size (a ∷ as') = sent size ∷ full_sends size as'

abbrev pub pongs_at : (fd : ℕ) → List Answer → List RecvReply
pongs_at fd [] = []
pongs_at fd (a ∷ as') =
    if has fd a.readfds then received (a.byte ∷ a.bytes) ∷ pongs_at fd as' else pongs_at fd as'

-- How often the message went out on the descriptor.
abbrev pub count_sent : List Call → ℕ
count_sent [] = 0
count_sent (sent_bytes fd bytes ∷ calls) = suc (count_sent calls)
count_sent (posted fd bytes fds ∷ calls) = count_sent calls
count_sent (sent_to fd bytes addr ∷ calls) = count_sent calls
count_sent (nonblocking fd ∷ calls) = count_sent calls
count_sent (reuse_address fd ∷ calls) = count_sent calls
count_sent (bound_to fd port ∷ calls) = count_sent calls
count_sent (listens fd ∷ calls) = count_sent calls
count_sent (selected n r w t ∷ calls) = count_sent calls
count_sent (closed fd ∷ calls) = count_sent calls
count_sent (unlinked path ∷ calls) = count_sent calls
count_sent (named fd path ∷ calls) = count_sent calls
count_sent (controlled fd adds events data_u64 ∷ calls) = count_sent calls

pub count_sent-append : (xs ys : List Call) → count_sent (xs ++ ys) ≡ count_sent xs + count_sent ys
count_sent-append [] ys = omega arith
count_sent-append (sent_bytes fd bytes ∷ xs) ys = omega (arith, count_sent-append xs ys)
count_sent-append (posted fd bytes fds ∷ xs) ys = count_sent-append xs ys
count_sent-append (sent_to fd bytes addr ∷ xs) ys = count_sent-append xs ys
count_sent-append (nonblocking fd ∷ xs) ys = count_sent-append xs ys
count_sent-append (reuse_address fd ∷ xs) ys = count_sent-append xs ys
count_sent-append (bound_to fd port ∷ xs) ys = count_sent-append xs ys
count_sent-append (listens fd ∷ xs) ys = count_sent-append xs ys
count_sent-append (selected n r w t ∷ xs) ys = count_sent-append xs ys
count_sent-append (closed fd ∷ xs) ys = count_sent-append xs ys
count_sent-append (unlinked path ∷ xs) ys = count_sent-append xs ys
count_sent-append (named fd path ∷ xs) ys = count_sent-append xs ys
count_sent-append (controlled fd adds events data_u64 ∷ xs) ys = count_sent-append xs ys

-- A connected client that still has the answers to come, one for each round that is left.
pub record IsRunning (as' : List Answer) (s : System ClientState) : Type 0 where
  pub established : s.locals.is_connected ≡ true
  pub reading : s.locals.events ≡ 1
  pub rounds : s.locals.loop_count ≡ length as'
  pub selects : s.selects ≡ selects_of as'
  pub sends : s.sends ≡ full_sends (length s.locals.send_msg) as'
  pub recvs : s.recvs ≡ pongs_at s.locals.sock_fd as'

add_round :
    (total size n total' sum : ℕ)
    → total' ≡ (total + size) % 2 ^ 64
    → sum ≡ (total' + (n + 1) * size) % 2 ^ 64
    → sum ≡ (total + (suc n + 1) * size) % 2 ^ 64
add_round total size n total' sum e f = omega arith

module _ (slot_send_count sleep_time : ℕ) where
  -- The state after a round with this answer.
  after_round : Answer → List Answer → System ClientState → System ClientState
  after_round a as' s =
      let p = s.locals in
      let q = record p {
        timeout = if p.timeout_ptr then a.left else p.timeout;
        total_send_size = (p.total_send_size + length p.send_msg) % 2 ^ 64;
      } in
      record s {
        locals = (count_down false slot_send_count sleep_time q).1;
        selects = selects_of as';
        sends = full_sends (length p.send_msg) as';
        recvs = pongs_at p.sock_fd as';
        calls =
            (s.calls
              ++ selected (p.sock_fd + 1) (p.sock_fd ∷ []) []
                  (if p.timeout_ptr then some (p.timeout) else none)
                ∷ [])
            ++ sent_bytes p.sock_fd p.send_msg ∷ [];
      }

  -- The two middle parts of such a round.
  finish_connect-connected :
      (writefds : List ℕ) (s : System ClientState)
      → s.locals.is_connected ≡ true
      → finish_connect writefds s ≡ done (proceed, s)
  unfolding finish_connect
  finish_connect-connected writefds s h = ground arith

  exchange-runs :
      (a : Answer) (as' : List Answer) (s : System ClientState)
      → IsRunning (a ∷ as') s
      → exchange a.readfds a.writefds (record s { selects = selects_of as' })
        ≡ done (
          proceed,
          record s {
            locals = record (s.locals) {
              total_send_size = (s.locals.total_send_size + length s.locals.send_msg) % 2 ^ 64;
            };
            selects = selects_of as';
            sends = full_sends (length s.locals.send_msg) as';
            recvs = pongs_at s.locals.sock_fd as';
            calls = s.calls ++ sent_bytes s.locals.sock_fd s.locals.send_msg ∷ [];
          },
        )
  unfolding exchange client_sent client_recv client_received next_recv send_on
  exchange-runs a as' s h =
      ground (arith, take-all (length s.locals.send_msg) s.locals.send_msg (omega arith))

  count_down-keeps :
      (n : ℕ) (p : ClientState)
      → p.loop_count ≡ suc n
      → n + 1 < 2 ^ 32
      → let (go, q) = count_down false slot_send_count sleep_time p in
        (go ≡ not (n == 0))
        × (q.loop_count ≡ n)
        × (q.is_connected ≡ p.is_connected)
        × (q.events ≡ p.events)
        × (q.sock_fd ≡ p.sock_fd)
        × (q.send_msg ≡ p.send_msg)
        × (q.total_send_size ≡ p.total_send_size)
  unfolding count_down
  count_down-keeps n p e small = ground (arith)

  -- The variables when the round counts down.
  counted : Answer → ClientState → ClientState
  counted a p = record p {
    timeout = if p.timeout_ptr then a.left else p.timeout;
    total_send_size = (p.total_send_size + length p.send_msg) % 2 ^ 64;
  }

  client_round-runs :
      (a : Answer) (as' : List Answer) (s : System ClientState)
      → IsRunning (a ∷ as') s
      → length as' + 1 < 2 ^ 32
      → client_round false slot_send_count sleep_time s
        ≡ done (not (length as' == 0), after_round a as' s)
  unfolding after_round client_round client_selected count_round next_select
  client_round-runs a as' s h small =
      let p : ClientState = record (s.locals) {
        timeout = if s.locals.timeout_ptr then a.left else s.locals.timeout;
      } in
      let asked : List Call =
        s.calls
        ++ selected (p.sock_fd + 1) (p.sock_fd ∷ []) []
            (if p.timeout_ptr then some (s.locals.timeout) else none)
          ∷ [] in
      let s1 : System ClientState = record s { locals = p; calls = asked } in
      let h1 : IsRunning (a ∷ as') s1 = record {
        established = h.established;
        reading = h.reading;
        rounds = h.rounds;
        selects = h.selects;
        sends = h.sends;
        recvs = h.recvs;
      } in
      let q : ClientState = record p {
        total_send_size = (p.total_send_size + length p.send_msg) % 2 ^ 64;
      } in
      ground (
        arith,
        h.reading,
        h.selects,
        finish_connect-connected a.writefds (record s1 { selects = selects_of as' }) h.established,
        exchange-runs a as' s1 h1,
        (count_down-keeps (length as') q h.rounds small).0,
      )

  after_round-keeps :
      (a : Answer) (as' : List Answer) (s : System ClientState)
      → IsRunning (a ∷ as') s
      → length as' + 1 < 2 ^ 32
      → IsRunning as' (after_round a as' s)
        × (count_sent (after_round a as' s).calls ≡ count_sent s.calls + 1)
        × ((after_round a as' s).locals.send_msg ≡ s.locals.send_msg)
        × ((after_round a as' s).locals.total_send_size
            ≡ (s.locals.total_send_size + length s.locals.send_msg) % 2 ^ 64)
  unfolding after_round
  after_round-keeps a as' s h small =
      let p : ClientState = record (s.locals) {
        timeout = if s.locals.timeout_ptr then a.left else s.locals.timeout;
      } in
      let q : ClientState = record p {
        total_send_size = (p.total_send_size + length p.send_msg) % 2 ^ 64;
      } in
      let (_, rounds, linked, events, fd, msg, total) =
        count_down-keeps (length as') q h.rounds small in
      let call : Call =
        selected (p.sock_fd + 1) (p.sock_fd ∷ []) []
          (if p.timeout_ptr then some (s.locals.timeout) else none) in
      (
        record {
          established = linked ∙ h.established;
          reading = events ∙ h.reading;
          rounds = rounds;
          selects = refl;
          sends = ap (λ (m : List ℕ). full_sends (length m) as') (sym msg);
          recvs = ap (λ (d : ℕ). pongs_at d as') (sym fd);
        },
        omega (
          arith,
          count_sent-append s.calls (call ∷ []),
          count_sent-append (s.calls ++ call ∷ []) (sent_bytes p.sock_fd p.send_msg ∷ []),
        ),
        msg,
        total,
      )

  pub client_loop-sends :
      (as' : List Answer) (k : ℕ) (a : Answer) (s : System ClientState)
      → IsRunning (a ∷ as') s
      → length as' + 1 < 2 ^ 32
      → length as' < k
      → (t : System ClientState) × (client_loop false slot_send_count sleep_time k s ≡ done (tt, t))
        × (count_sent t.calls ≡ count_sent s.calls + (length as' + 1))
        × (t.locals.total_send_size
            ≡ (s.locals.total_send_size + (length as' + 1) * length s.locals.send_msg) % 2 ^ 64)
  unfolding client_loop
  client_loop-sends as' zero a s h small fuel = absurd (omega arith)
  client_loop-sends [] (suc k) a s h small fuel =
      let (_, sends, _, total) = after_round-keeps a [] s h small in
      (
        after_round a [] s,
        ground (arith, client_round-runs a [] s h small),
        sends,
        total ∙ omega arith,
      )
  client_loop-sends (b ∷ as') (suc k) a s h small fuel =
      let (running, sends, msg, total) = after_round-keeps a (b ∷ as') s h small in
      let (t, runs, more, sum) =
        client_loop-sends as' k b (after_round a (b ∷ as') s) running (omega arith) (omega arith) in
      (
        t,
        ground (arith, runs, client_round-runs a (b ∷ as') s h small),
        omega (arith, more, sends),
        add_round s.locals.total_send_size (length s.locals.send_msg) (length as')
            (after_round a (b ∷ as') s).locals.total_send_size t.locals.total_send_size total
            (sum
              ∙ ap
                  (λ (m : List ℕ).
                    ((after_round a (b ∷ as') s).locals.total_send_size
                      + (length as' + 1) * length m)
                    % 2 ^ 64)
                  msg),
      )
