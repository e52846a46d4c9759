-- ===== src/Checker/Client.antt =====
-- nwchecker_client.c of 04-24_UNIX异步IO机制: the TCP client.
-- Error numbers of a call that failed stand in its answer; `int` counters are their bit patterns.
use imooc_sock_core_tech.Prelude.{
  ℕ, zero, suc, ◌+◌, ◌*◌, ◌/◌, ◌%◌, ◌^◌, Bool, true, false, ◌||◌, ◌&&◌, not, none, some, List, [],
  ◌∷◌, ◌==◌, has, length, if◌then◌else◌,
}
use imooc_sock_core_tech.Prelude.Int.{ℤ, pos, negsuc, nonpositive}
use imooc_sock_core_tech.Outcome.{done, fault, hang}
use imooc_sock_core_tech.Types.{
  eintr, eagain, einval, enetdown, enetunreach, econnreset, etimedout, econnrefused, ehostunreach,
  einprogress, sub32, u32,
}
use imooc_sock_core_tech.Sock.{ConnectReply, connected, connect_failed}
use imooc_sock_core_tech.World.{RecvReply, received, recv_failed, SendReply, sent, send_failed}
use imooc_sock_core_tech.Checker.Buffers.{ClientArgs, alloc_buffer, positive_or}
use imooc_sock_core_tech.Checker.{
  reads, writes, keep_read, add_write, closed, nonblocking, selected, SelectReply, select_failed,
  ready, Cmd, pure, ◌>>=◌, ◌>>◌, get, put, note_call, next_recv, next_select, next_socket, send_on,
}

-- The variables of `nwc_client`. `timeout_ptr` tells whether it points to `timeout`; `is_connected`
-- is `state == CONN_CONNECTED`; `sock_errors` are the answers to `getsockopt(SO_ERROR)` to come.
pub record ClientState : Type 0 where
  pub sock_fd : ℕ
  pub send_msg : List ℕ
  pub events : ℕ
  pub is_connected : Bool
  pub timeout : ℕ × ℕ
  pub timeout_ptr : Bool
  pub loop_count : ℕ
  pub cur_slot_sent : ℕ
  pub total_send_size : ℕ
  pub sock_errors : List ℕ

-- What follows a part of a round: the next part, the next round, or the end of the loop.
pub data Verdict : Type 0 where
  proceed : Verdict
  again : Verdict
  leave : Verdict

-- `if (err == ECONNREFUSED || …)`
unfoldable pub is_fatal : (err : ℕ) → Bool
is_fatal err =
    (err == econnrefused)
    || ((err == econnreset)
        || ((err == etimedout)
            || ((err == ehostunreach)
                || ((err == enetunreach) || ((err == enetdown) || (err == einval))))))

-- `if (state == CONN_UNCONNECTED)`
unfoldable pub finish_connect : (writefds : List ℕ) → Cmd ClientState Verdict
unfolding is_fatal
finish_connect writefds s =
    let p = s.locals in
    if not p.is_connected && has p.sock_fd writefds
    then elim (p.sock_errors) [
      | [] ↦ hang
      | err ∷ errs ↦
          (if is_fatal err
              then (put (record p { sock_errors = errs }) >> pure leave)
              else (put (record p {
                sock_errors = errs;
                is_connected = true;
                timeout_ptr = true;
                events = keep_read p.events;
              })
                  >> pure proceed))
            s
    ]
    else done (proceed, s)

-- `total_send_size += send_msg_len`, an `unsigned long`
abbrev pub add_size : ClientState → ℕ
add_size p = (p.total_send_size + length p.send_msg) % 2 ^ 64

unfoldable pub client_sent : SendReply → Cmd ClientState Verdict
client_sent (sent n) = do
  p ← get
  put (record p { events = keep_read p.events; total_send_size = add_size p })
  pure proceed
client_sent (send_failed errno) = do
  p ← get
  if errno == eintr
      then (put (record p { events = keep_read p.events }) >> pure again)
      else if errno == eagain
      then (put (record p { events = add_write (keep_read p.events); total_send_size = add_size p })
          >> pure proceed)
      else (put (record p { events = keep_read p.events }) >> pure leave)

unfoldable pub client_received : RecvReply → Verdict
client_received (received []) = leave
client_received (received (b ∷ bs)) = proceed
client_received (recv_failed errno) =
    if errno == eintr then again else if errno == eagain then proceed else leave

unfoldable pub client_recv : (readfds : List ℕ) → Cmd ClientState Verdict
unfolding client_received next_recv
client_recv readfds = get >>= λ p.
    if has p.sock_fd readfds
    then (next_recv >>= λ reply. pure (client_received reply))
    else pure proceed

-- `if (state == CONN_CONNECTED)`
unfoldable pub exchange : (readfds writefds : List ℕ) → Cmd ClientState Verdict
unfolding client_sent client_recv send_on
exchange readfds writefds = get >>= λ p.
    if not p.is_connected
    then pure proceed
    else if not (writes p.events) || has p.sock_fd writefds
    then (send_on (some p.sock_fd) p.send_msg >>= client_sent >>= λ v. elim v [
      | proceed ↦ client_recv readfds
      | again ↦ pure again
      | leave ↦ pure leave
    ])
    else client_recv readfds

abbrev after_part : Cmd ClientState Bool → Verdict → Cmd ClientState Bool
after_part next proceed = next
after_part next again = pure true
after_part next leave = pure false

module _ (infinit : Bool) (slot_send_count sleep_time : ℕ) where
  -- The end of a round on the variables: `false` is `break`.
  unfoldable pub count_down : ClientState → Bool × ClientState
  count_down p =
      let left = if infinit then p.loop_count else sub32 p.loop_count 1 in
      if not infinit && (left == 0)
      then (false, record p { loop_count = left })
      else if sub32 p.cur_slot_sent 1 == 0
      then (
        true,
        record p {
          loop_count = left;
          cur_slot_sent = slot_send_count;
          timeout = (sleep_time / 1000, sleep_time % 1000 * 1000);
        },
      )
      else (
        true,
        record p { loop_count = left; cur_slot_sent = sub32 p.cur_slot_sent 1; timeout = (0, 0) },
      )

  unfoldable pub count_round : Cmd ClientState Bool
  unfolding count_down
  count_round = get >>= λ p. put (count_down p).1 >> pure (count_down p).0

  unfoldable pub client_selected : SelectReply → Cmd ClientState Bool
  unfolding finish_connect exchange count_round
  client_selected (select_failed errno) = pure (errno == eintr)
  client_selected (ready readfds writefds left) = do
    p ← get
    put (record p { timeout = if p.timeout_ptr then left else p.timeout })
    finish_connect writefds >>= after_part (exchange readfds writefds >>= after_part count_round)

  -- One round of `while(1)`: whether there is a next one.
  unfoldable pub client_round : Cmd ClientState Bool
  unfolding client_selected next_select
  client_round = get >>= λ p. do
    note_call (
        selected (p.sock_fd + 1) (if reads p.events then p.sock_fd ∷ [] else [])
          (if writes p.events then p.sock_fd ∷ [] else [])
          (if p.timeout_ptr then some (p.timeout) else none))
    next_select >>= client_selected

  unfoldable pub client_loop : (fuel : ℕ) → Cmd ClientState (Unit {0})
  unfolding client_round
  client_loop zero s = hang
  client_loop (suc k) s =
      let rest = client_loop k in (client_round >>= λ go. if go then rest else pure tt) s

-- The variables before the loop; `unset` is what stands in `timeout` where nothing was written.
abbrev pub client_variables :
    (unset : ℕ × ℕ) (args : ClientArgs) (fd : ℕ) (send_msg : List ℕ) (is_connected : Bool)
    (sock_errors : List ℕ)
    → ClientState
client_variables unset args fd send_msg is_connected sock_errors =
    let slot_send_count = positive_or 1 args.sent_pkgs in
    record {
      sock_fd = fd;
      send_msg = send_msg;
      events = if is_connected then 1 else 3;
      is_connected = is_connected;
      timeout = if is_connected then (0, 0) else unset;
      timeout_ptr = is_connected;
      loop_count = u32 (positive_or 0 args.count * slot_send_count);
      cur_slot_sent = slot_send_count;
      total_send_size = 0;
      sock_errors = sock_errors;
    }

module _ (junk : List ℕ) (unset : ℕ × ℕ) (fuel : ℕ) (args : ClientArgs) (sock_errors : List ℕ) where
  -- From the message on: the loop, and the close unless it is not wanted.
  unfoldable pub run_client : (fd : ℕ) (is_connected : Bool) → Cmd ClientState ℤ
  unfolding alloc_buffer client_loop
  run_client fd is_connected s = elim (alloc_buffer junk (positive_or 5 args.message_size)) [
    | none ↦ fault
    | some send_msg ↦
        (do
          put (client_variables unset args fd send_msg is_connected sock_errors)
          client_loop (nonpositive args.count) (positive_or 1 args.sent_pkgs)
              (positive_or 3000 args.interval) fuel
          (if args.no_close then pure tt else note_call (closed fd))
          pure (pos 0))
          s
  ]

  unfoldable pub run_nwc_client : ConnectReply → Cmd ClientState ℤ
  unfolding run_client next_socket
  run_nwc_client reply = next_socket >>= λ made. elim made [
    | none ↦ pure (negsuc 0)
    | some fd ↦ do
      note_call (nonblocking fd)
      elim reply [
        | connected ↦ run_client fd true
        | connect_failed errno ↦
            if (errno == einprogress) || (errno == eagain)
            then run_client fd false
            else (do note_call (closed fd); pure (negsuc 0))
      ]
  ]
