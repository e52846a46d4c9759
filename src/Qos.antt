-- ===== src/Qos.antt =====
-- Quality-of-service accounting: 04-30_nwchecker_refactor/nwc_qos_protocol.c and .h.
-- `double` is a parameter `D` with the operations that the code makes on it. An entry of the sent
-- queue and the message it points to are allocated together, so one address names both.
pub mod Ack
pub mod Clock
pub mod Stat
pub mod Roundtrip
pub mod Reach
pub mod Reporting
use imooc_sock_core_tech.Prelude.{
  ℕ, ◌+◌, ◌*◌, ◌/◌, ◌%◌, ◌^◌, Bool, ◌&&◌, Option, none, some, List, [], ◌∷◌, ◌++◌, ◌==◌, ltb, leb,
  if◌then◌else◌, drop,
}
use imooc_sock_core_tech.Types.{u32, sub32}

-- `div` is the quotient by a number other than 0; IEEE 754 gives `nan` for 0 / 0 and `infinity` for a
-- positive number divided by 0.
pub record DoubleOps (D : Type 0) : Type 0 where
  pub of_u32 : ℕ → D
  pub add : D → D → D
  pub sub : D → D → D
  pub mul : D → D → D
  pub div : D → D → D
  pub gt : D → D → Bool
  pub zero : D
  pub seven_eighths : D
  pub one_eighth : D
  pub nan : D
  pub infinity : D

-- `struct nwc_qos_hdr`; the bytes of `data` are `payload`.
pub record QosHdr : Type 0 where
  pub timestamp : ℕ
  pub ack_timestamp : ℕ
  pub recv_delay : ℕ
  pub length : ℕ
  pub payload : List ℕ

-- `struct nwc_package_entry`, at its address.
pub record PackageEntry : Type 0 where
  pub addr : ℕ
  pub message : QosHdr
  pub flag : ℕ

pub record Qos (D : Type 0) : Type 0 where
  pub rtt : D
  pub loss_packages_per_secs : ℕ
  pub sent_packages_per_secs : ℕ
  pub jitter : D
  pub recv_timestamp : ℕ
  pub recv_time : ℕ
  pub sent_bytes : ℕ
  pub send_bandwidth : ℕ
  pub last_stat_ts : ℕ
  pub stat_interval : ℕ
  pub sent_queue : List PackageEntry

-- `sizeof(struct nwc_qos_hdr)`
abbrev pub qos_hdr_len : ℕ
qos_hdr_len = 16

-- `nwc_qos_milisecs`, from the reading of the monotonic clock.
unfoldable pub milisecs : (tv_sec tv_nsec : ℕ) → ℕ
milisecs tv_sec tv_nsec = u32 ((tv_sec * 1000 + tv_nsec / 1000) % 2 ^ 64)

unfoldable pub get_pkg_entry : List PackageEntry → (ack_ts : ℕ) → Option PackageEntry
get_pkg_entry [] ack_ts = none
get_pkg_entry (e ∷ q) ack_ts =
    if e.message.timestamp == ack_ts then some e else get_pkg_entry q ack_ts

-- `list_del(&entry->package_entry)` on the queue as a sequence.
unfoldable pub del_entry : (addr : ℕ) → List PackageEntry → List PackageEntry
del_entry addr [] = []
del_entry addr (e ∷ q) = if e.addr == addr then q else e ∷ del_entry addr q

-- "ping" and "pong" in ASCII.
abbrev pub ping : List ℕ
ping = 112 ∷ 105 ∷ 110 ∷ 103 ∷ []

abbrev pub pong : List ℕ
pong = 112 ∷ 111 ∷ 110 ∷ 103 ∷ []

-- What `nwc_qos_stat` prints.
pub record Report (D : Type 0) : Type 0 where
  pub bandwidth : ℕ
  pub rtt : D
  pub jitter : D
  pub loss_rate : D

module _ {D : Type 0} (F : DoubleOps D) where
  -- Sets every field but `send_bandwidth`, which keeps what the memory held.
  unfoldable pub qos_init : Qos D → Qos D
  qos_init qos = record {
    rtt = F.zero;
    loss_packages_per_secs = 0;
    sent_packages_per_secs = 0;
    jitter = F.zero;
    recv_timestamp = 0;
    recv_time = 0;
    sent_bytes = 0;
    send_bandwidth = qos.send_bandwidth;
    last_stat_ts = 0;
    stat_interval = 1000;
    sent_queue = [];
  }

  -- `(nowms - timestamp) > rtt`
  unfoldable pub overdue : (nowms : ℕ) → D → PackageEntry → Bool
  overdue nowms rtt e = F.gt (F.of_u32 (sub32 nowms e.message.timestamp)) rtt

  -- The loop of `nwc_qos_stat`: the loss counter and the queue that is left.
  unfoldable pub sweep : (nowms : ℕ) → D → (loss : ℕ) → List PackageEntry → ℕ × List PackageEntry
  sweep nowms rtt loss [] = (loss, [])
  sweep nowms rtt loss (e ∷ q) =
      let lost = sweep nowms rtt (u32 (loss + 1)) q in
      let kept = sweep nowms rtt loss q in
      if overdue nowms rtt e then lost else (kept.0, e ∷ kept.1)

  -- `(int)(nowms - last_stat_ts) >= stat_interval`
  unfoldable pub window_over : (nowms : ℕ) → Qos D → Bool
  window_over nowms qos =
      let d = sub32 nowms qos.last_stat_ts in ltb d (2 ^ 31) && leb qos.stat_interval d

  -- `(double)loss_packages_per_secs / sent_packages_per_secs`, where nothing may have been sent.
  unfoldable pub loss_ratio : (loss sent : ℕ) → D
  loss_ratio loss sent =
      if sent == 0
      then (if loss == 0 then F.nan else F.infinity)
      else F.div (F.of_u32 loss) (F.of_u32 sent)

  -- The report and the reset at the end of a window. `none` is the integer division by `secs == 0`,
  -- which C leaves undefined.
  unfoldable pub close_window : (nowms : ℕ) → Qos D → Option (Qos D × Option (Report D))
  unfolding loss_ratio
  close_window nowms qos =
      let secs = qos.stat_interval / 1000 in
      if secs == 0
      then none
      else some (
        record qos {
          sent_bytes = 0;
          loss_packages_per_secs = 0;
          sent_packages_per_secs = 0;
          last_stat_ts = nowms;
        },
        some (record {
          bandwidth = u32 (qos.sent_bytes * 8) / secs;
          rtt = qos.rtt;
          jitter = qos.jitter;
          loss_rate =
              F.div (loss_ratio qos.loss_packages_per_secs qos.sent_packages_per_secs)
                (F.of_u32 secs);
        }),
      )

  unfoldable pub qos_stat : (nowms : ℕ) → Qos D → Option (Qos D × Option (Report D))
  qos_stat nowms qos =
      if qos.last_stat_ts == 0
      then some (record qos { last_stat_ts = nowms }, none)
      else let swept = sweep nowms qos.rtt qos.loss_packages_per_secs qos.sent_queue in
        let qos' = record qos { loss_packages_per_secs = swept.0; sent_queue = swept.1 } in
        if window_over nowms qos' then close_window nowms qos' else some (qos', none)

  -- `junk` is what `malloc` left in the payload and `stale` in the timestamp, which is not set here.
  unfoldable pub create_package :
      (addr stale : ℕ) (junk : List ℕ) (pkglen : ℕ) → Qos D → QosHdr × Qos D
  create_package addr stale junk pkglen qos =
      let pkg : QosHdr = record {
        timestamp = stale;
        ack_timestamp = 0;
        recv_delay = 0;
        length = pkglen;
        payload = ping ++ 0 ∷ drop 5 junk;
      } in
      (
        pkg,
        record qos {
          sent_queue = qos.sent_queue ++ record { addr = addr; message = pkg; flag = 0 } ∷ [];
          sent_packages_per_secs = u32 (qos.sent_packages_per_secs + 1);
          sent_bytes = u32 (qos.sent_bytes + (qos_hdr_len + pkglen));
        },
      )

  -- `qos` is not used by the code either.
  unfoldable pub create_ack_package : (stale ack_ts : ℕ) → QosHdr
  create_ack_package stale ack_ts = record {
    timestamp = stale;
    ack_timestamp = ack_ts;
    recv_delay = 0;
    length = 4;
    payload = pong;
  }

  -- One step of the moving averages; the jitter reads the new round-trip time.
  unfoldable pub update_rtt : (sample : D) → Qos D → Qos D
  update_rtt sample qos =
      let rtt = F.add (F.mul qos.rtt F.seven_eighths) (F.mul sample F.one_eighth) in
      record qos {
        rtt = rtt;
        jitter = F.add (F.mul qos.jitter F.seven_eighths) (F.mul (F.sub sample rtt) F.one_eighth);
      }

  unfoldable pub rtt_sample : QosHdr → (recv_ts : ℕ) → D
  rtt_sample pkg recv_ts =
      F.sub (F.of_u32 (sub32 recv_ts pkg.ack_timestamp)) (F.of_u32 pkg.recv_delay)

  -- The part of `nwc_qos_process_package` behind the search.
  unfoldable pub acknowledge : Option PackageEntry → QosHdr → (recv_ts : ℕ) → Qos D → Qos D
  unfolding update_rtt rtt_sample
  acknowledge none pkg recv_ts qos = qos
  acknowledge (some entry) pkg recv_ts qos =
      let qos' = update_rtt (rtt_sample pkg recv_ts) qos in
      record qos' { sent_queue = del_entry entry.addr qos'.sent_queue }

  unfoldable pub process_package : QosHdr → (recv_ts : ℕ) → Qos D → Qos D
  unfolding acknowledge
  process_package pkg recv_ts qos =
      if pkg.ack_timestamp == 0
      then qos
      else acknowledge (get_pkg_entry qos.sent_queue pkg.ack_timestamp) pkg recv_ts qos

-- `pkg->timestamp = …` by the holder of the pointer: the queue sees the write.
unfoldable pub stamp : (addr ts : ℕ) → List PackageEntry → List PackageEntry
stamp addr ts [] = []
stamp addr ts (e ∷ q) =
    (if e.addr == addr then record e { message = record (e.message) { timestamp = ts } } else e)
    ∷ stamp addr ts q
