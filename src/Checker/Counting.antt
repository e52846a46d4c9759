-- ===== src/Checker/Counting.antt =====
-- A whole run of the TCP client (nwchecker_client.c of 04-24_UNIX异步IO机制).
use imooc_sock_core_tech.Prelude.{
  ℕ, suc, ◌+◌, ◌*◌, ◌%◌, ◌^◌, ◌<◌, ◌≡◌, refl, ap, ◌∙◌, Bool, true, false, Option, some, List, [],
  ◌∷◌, ◌++◌, arith, length, if◌then◌else◌,
}
use imooc_sock_core_tech.Prelude.Int.{pos}
use imooc_sock_core_tech.Sock.{connected}
use imooc_sock_core_tech.Outcome.{done}
use imooc_sock_core_tech.Checker.{nonblocking, closed, System, next_socket}
use imooc_sock_core_tech.Checker.Buffers.{ClientArgs, alloc_buffer, positive_or}
use imooc_sock_core_tech.Checker.Client.{run_nwc_client, run_client, client_variables, ClientState}
use imooc_sock_core_tech.Checker.ClientRounds.{
  Answer, selects_of, full_sends, pongs_at, count_sent, count_sent-append, IsRunning,
  client_loop-sends,
}

-- The close at the end, unless it is not wanted.
abbrev ended : (no_close : Bool) (fd : ℕ) → System ClientState → System ClientState
ended no_close fd t = if no_close then t else record t { calls = t.calls ++ closed fd ∷ [] }

same_total :
    (no_close : Bool) (fd : ℕ) (t : System ClientState)
    → (ended no_close fd t).locals.total_send_size ≡ t.locals.total_send_size
same_total true fd t = refl
same_total false fd t = refl

module _ (junk : List ℕ) (unset : ℕ × ℕ) (fuel : ℕ) (args : ClientArgs) (sock_errors : List ℕ)
    (fd : ℕ) (send_msg : List ℕ) (sockets : List (Option ℕ)) (a : Answer) (as' : List Answer) where
  -- A TCP client that connects at once, of which a positive count of slots is asked, ends and
  -- returns 0, where `select` answers each round, every send accepts the whole message and every
  -- readable round receives some bytes: it sends its message count times slot size, and the total
  -- that it prints is the bytes of these messages, modulo 2^64. The rounds fit 32 bits, and fuel
  -- for one turn more than the rounds behind the first is enough.
  pub run_nwc_client-sends :
      (s : System ClientState) (c : ℕ)
      → args.count ≡ pos (suc c)
      → length as' + 1 ≡ suc c * positive_or 1 args.sent_pkgs
      → length as' + 1 < 2 ^ 32
      → length as' < fuel
      → alloc_buffer junk (positive_or 5 args.message_size) ≡ some send_msg
      → s.sockets ≡ some fd ∷ sockets
      → s.selects ≡ selects_of (a ∷ as')
      → s.sends ≡ full_sends (length send_msg) (a ∷ as')
      → s.recvs ≡ pongs_at fd (a ∷ as')
      → (t : System ClientState) × (run_nwc_client junk unset fuel args sock_errors connected s
          ≡ done (pos 0, t))
        × (count_sent t.calls ≡ count_sent s.calls + suc c * positive_or 1 args.sent_pkgs)
        × (t.locals.total_send_size
            ≡ suc c * positive_or 1 args.sent_pkgs * length send_msg % 2 ^ 64)
  unfolding run_nwc_client run_client next_socket
  run_nwc_client-sends s c counts rounds small enough buffer made selects sends recvs =
      let slot = positive_or 1 args.sent_pkgs in
      let s1 : System ClientState = record s {
        locals = client_variables unset args fd send_msg true sock_errors;
        sockets = sockets;
        calls = s.calls ++ nonblocking fd ∷ [];
      } in
      let running : IsRunning (a ∷ as') s1 = record {
        established = refl;
        reading = refl;
        rounds = ap (λ (n : ℕ). n * slot % 2 ^ 32) (ap (positive_or 0) counts) ∙ omega arith;
        selects = selects;
        sends = sends;
        recvs = recvs;
      } in
      let (t, runs, sent_all, total) =
        client_loop-sends slot (positive_or 3000 args.interval) as' fuel a s1 running small
          enough in
      (
        ended args.no_close fd t,
        ground (arith, runs),
        ground (
          arith,
          sent_all,
          count_sent-append s.calls (nonblocking fd ∷ []),
          count_sent-append t.calls (closed fd ∷ []),
        ),
        same_total args.no_close fd t
            ∙ total
            ∙ ap (λ (n : ℕ). (0 + n * length send_msg) % 2 ^ 64) rounds
            ∙ omega arith,
      )
