-- ===== src/Checker.antt =====
-- The checker of 04-24_UNIX异步IO机制, the last one before the refactored program: what its
-- programs share. That is `struct nwc_connection` of nwc_connection.h as an item of a list, the bits
-- of its events, the message "pong", and one process with the answers of the system to its calls.
pub mod Answering
pub mod Messages
pub mod Listening
pub mod Server
pub mod Worker
pub mod Master
pub mod Serving
pub mod Watching
pub mod Stopping
pub mod Handover
pub mod Echo
pub mod Greeting
pub mod Buffers
pub mod Client
pub mod ClientRounds
pub mod Counting
pub mod NwcLinks
pub mod Udp
pub mod Sigio
pub mod Bursts
pub mod UdpClient
pub mod Workforce
pub mod Args
pub mod UnixStream
pub mod UnixClient
pub mod Rotation
pub mod OtherTurns
pub mod Balance
use imooc_sock_core_tech.Prelude.{
  arith, ◌≡◌, refl, ◌⊎◌, inl, inr, ℕ, ◌+◌, ◌/◌, ◌%◌, Bool, true, false, ◌||◌, Option, none, some,
  List, [], ◌∷◌, ◌++◌, ◌==◌, ltb, has, take, drop, length, if◌then◌else◌,
}
use imooc_sock_core_tech.Outcome.{Outcome, done, fault, hang}
use imooc_sock_core_tech.World.{SockAddr, RecvReply, SendReply, sent, send_failed, AcceptReply}

-- `struct nwc_connection` behind its links; `none` is -1. `recv_buffer` holds the
-- bytes that were received into the buffer.
pub record Connection : Type 0 where
  pub pid : Option ℕ
  pub fd : Option ℕ
  pub events : ℕ
  pub recv_buffer : List ℕ

-- `events & 1` and `events & 2`
abbrev pub reads : (events : ℕ) → Bool
reads events = events % 2 == 1

abbrev pub writes : (events : ℕ) → Bool
writes events = events / 2 % 2 == 1

-- `events & 1` as the new value, and `events | 2`
abbrev pub keep_read : (events : ℕ) → ℕ
keep_read events = events % 2

abbrev pub add_write : (events : ℕ) → ℕ
add_write events = if writes events then events else events + 2

abbrev pub pong_message : List ℕ
pong_message = b'p' ∷ b'o' ∷ b'n' ∷ b'g' ∷ []

-- What `recv` leaves in a buffer that held `old`.
abbrev pub overwrite : (bytes old : List ℕ) → List ℕ
overwrite bytes old = bytes ++ drop (length bytes) old

-- The answer to `select`: -1, or the two sets and what is left of the timeout, which Linux writes.
pub data SelectReply : Type 0 where
  select_failed : (errno : ℕ) → SelectReply
  ready : (readfds writefds : List ℕ) (left : ℕ × ℕ) → SelectReply

-- A control message of `recvmsg`: its type and the descriptors in it.
pub record Control : Type 0 where
  pub cmsg_type : ℕ
  pub cmsg_data : List ℕ

pub data MessageReply : Type 0 where
  message : (bytes : List ℕ) (controls : List Control) → MessageReply
  message_failed : (errno : ℕ) → MessageReply

-- The calls that leave something behind: bytes that `send` or `sendto` accepted, a message that `sendmsg`
-- accepted with its descriptors, a changed or closed descriptor, what `select` was asked, a path that
-- was removed or bound, and an `epoll_ctl` that adds or changes an event, with the two halves of its
-- data.
pub data Call : Type 0 where
  sent_bytes : (fd : ℕ) (bytes : List ℕ) → Call
  sent_to : (fd : ℕ) (bytes : List ℕ) (addr : SockAddr) → Call
  posted : (fd : ℕ) (bytes fds : List ℕ) → Call
  nonblocking : (fd : ℕ) → Call
  reuse_address : (fd : ℕ) → Call
  bound_to : (fd port : ℕ) → Call
  listens : (fd : ℕ) → Call
  selected : (nfds : ℕ) (readfds writefds : List ℕ) (timeout : Option (ℕ × ℕ)) → Call
  closed : (fd : ℕ) → Call
  unlinked : (path : List ℕ) → Call
  named : (fd : ℕ) (path : List ℕ) → Call
  controlled : (fd : ℕ) (adds : Bool) (events : ℕ) (data_u64 : ℕ × ℕ) → Call

-- A process: its variables, the answers that are still to come, and its calls in order. `oks` are
-- the answers of calls that only succeed or fail.
pub record System (L : Type 0) : Type 0 where
  pub locals : L
  pub sockets : List (Option ℕ)
  pub pairs : List (Option (ℕ × ℕ))
  pub forks : List (Option ℕ)
  pub oks : List Bool
  pub selects : List SelectReply
  pub accepts : List AcceptReply
  pub recvs : List RecvReply
  pub sends : List SendReply
  pub messages : List MessageReply
  pub calls : List Call

pub Outcome-cases {ℓ} :
    {A : Type ℓ} (m : Outcome A) → ((a : A) × (m ≡ done a)) ⊎ ((m ≡ fault) ⊎ (m ≡ hang))
Outcome-cases (done a) = inl (a, refl)
Outcome-cases fault = inr (inl refl)
Outcome-cases hang = inr (inr refl)

abbrev pub Cmd : Type 0 → Type 0 → Type 0
Cmd L A = System L → Outcome (A × System L)

module _ {L : Type 0} where
  abbrev pub pure : {A : Type 0} → A → Cmd L A
  pure a s = done (a, s)

  infixl 5 ◌>>=◌ ◌>>◌
  abbrev pub ◌>>=◌ : {A B : Type 0} → Cmd L A → (A → Cmd L B) → Cmd L B
  ◌>>=◌ m f s = elim (m s) [ done (a, s') ↦ f a s' | fault ↦ fault | hang ↦ hang ]

  abbrev pub ◌>>◌ : {B : Type 0} → Cmd L (Unit {0}) → Cmd L B → Cmd L B
  m >> k = m >>= λ _. k

  -- Inversion of a run that ended.
  pub >>=-done :
      {A B : Type 0} (m : Cmd L A) (f : A → Cmd L B) (s t : System L) (b : B)
      → (m >>= f) s ≡ done (b, t)
      → (a : A) × (s' : System L) × (m s ≡ done (a, s')) × (f a s' ≡ done (b, t))
  >>=-done m f s t b e = elim (Outcome-cases (m s)) [
    | inl ((a, s'), ran) ↦ (a, s', ran, ground (arith, ran))
    | inr other ↦ elim other [
      | inl faults ↦ absurd (ground arith)
      | inr hangs ↦ absurd (ground arith)
    ]
  ]

  abbrev pub get : Cmd L L
  get s = done (s.locals, s)

  abbrev pub put : L → Cmd L (Unit {0})
  put l s = done (tt, record s { locals = l })

  -- Notes a call.
  abbrev pub note_call : Call → Cmd L (Unit {0})
  note_call c s = done (tt, record s { calls = s.calls ++ c ∷ [] })

  -- A call on -1 fails and leaves nothing behind.
  abbrev pub on_fd : (ℕ → Call) → Option ℕ → Cmd L (Unit {0})
  on_fd call none s = done (tt, s)
  on_fd call (some fd) s = note_call (call fd) s

  unfoldable pub next_select : Cmd L SelectReply
  next_select s = elim (s.selects) [ [] ↦ hang | r ∷ rest ↦ done (r, record s { selects = rest }) ]

  unfoldable pub next_accept : Cmd L AcceptReply
  next_accept s = elim (s.accepts) [ [] ↦ hang | r ∷ rest ↦ done (r, record s { accepts = rest }) ]

  unfoldable pub next_recv : Cmd L RecvReply
  next_recv s = elim (s.recvs) [ [] ↦ hang | r ∷ rest ↦ done (r, record s { recvs = rest }) ]

  unfoldable pub next_message : Cmd L MessageReply
  next_message s = elim (s.messages) [
    | [] ↦ hang
    | r ∷ rest ↦ done (r, record s { messages = rest })
  ]

  unfoldable pub next_ok : Cmd L Bool
  next_ok s = elim (s.oks) [ [] ↦ hang | r ∷ rest ↦ done (r, record s { oks = rest }) ]

  unfoldable pub next_socket : Cmd L (Option ℕ)
  next_socket s = elim (s.sockets) [ [] ↦ hang | r ∷ rest ↦ done (r, record s { sockets = rest }) ]

  unfoldable pub next_pair : Cmd L (Option (ℕ × ℕ))
  next_pair s = elim (s.pairs) [ [] ↦ hang | r ∷ rest ↦ done (r, record s { pairs = rest }) ]

  unfoldable pub next_fork : Cmd L (Option ℕ)
  next_fork s = elim (s.forks) [ [] ↦ hang | r ∷ rest ↦ done (r, record s { forks = rest }) ]

  -- `send`: the bytes that it accepts are on their way.
  unfoldable pub send_on : Option ℕ → (bytes : List ℕ) → Cmd L SendReply
  send_on fd bytes s = elim (s.sends) [
    | [] ↦ hang
    | sent n ∷ rest ↦
        (do on_fd (λ f. sent_bytes f (take n bytes)) fd; pure (sent n)) (record s { sends = rest })
    | send_failed errno ∷ rest ↦ done (send_failed errno, record s { sends = rest })
  ]

  -- `sendto`
  unfoldable pub send_to : (fd : ℕ) (bytes : List ℕ) (addr : SockAddr) → Cmd L SendReply
  send_to fd bytes addr s = elim (s.sends) [
    | [] ↦ hang
    | sent n ∷ rest ↦
        done (
          sent n,
          record s { sends = rest; calls = s.calls ++ sent_to fd (take n bytes) addr ∷ [] },
        )
    | send_failed errno ∷ rest ↦ done (send_failed errno, record s { sends = rest })
  ]

-- The answer to `recvfrom`: the bytes and where they came from.
pub data DatagramReply : Type 0 where
  datagram : (bytes : List ℕ) (from : SockAddr) → DatagramReply
  recvfrom_failed : (errno : ℕ) → DatagramReply

-- The descriptors that are asked of `select`.
pub record FdSets : Type 0 where
  pub readfds : List ℕ
  pub writefds : List ℕ
  pub max_fd : Option ℕ

-- `if (max_fd < fd) max_fd = fd;`
abbrev pub raise_max : (fd : ℕ) → Option ℕ → Option ℕ
raise_max fd none = some fd
raise_max fd (some m) = some (if ltb m fd then fd else m)

-- `max_fd + 1`
abbrev pub nfds_of : Option ℕ → ℕ
nfds_of none = 0
nfds_of (some m) = m + 1

-- `FD_ISSET`. C leaves open what it gives for -1; `stray` stands for it.
abbrev pub is_set : (stray : List ℕ → Bool) → Option ℕ → List ℕ → Bool
is_set stray none set = stray set
is_set stray (some fd) set = has fd set
