-- ===== src/Qos/Reach.antt =====
-- The accounting (nwc_qos_protocol.c) from its initialisation on, against a history: whatever
-- packages are sent, whatever arrives and whenever the statistics run.
use imooc_sock_core_tech.Prelude.{
  ℕ, ◌+◌, ◌-◌, ◌≡◌, ◌∙◌, refl, Bool, true, false, not, ◌&&◌, some, none, Option, List, [], ◌∷◌,
  ◌++◌, arith, has, length, Bool-cases, Option-cases, inl, inr, ◌==◌, if◌then◌else◌,
}
use imooc_sock_core_tech.Types.{u32}
use imooc_sock_core_tech.Qos.{
  DoubleOps, QosHdr, PackageEntry, Qos, Report, qos_hdr_len, qos_init, create_package, stamp,
  process_package, acknowledge, update_rtt, qos_stat, sweep, overdue, close_window, del_entry,
  get_pkg_entry,
}
use imooc_sock_core_tech.Qos.Ack.{timestamps}
use imooc_sock_core_tech.Qos.Roundtrip.{sent_at}

-- What happened since the window began at `since`: packages sent, their bytes, acknowledgements that
-- found their package, packages taken for lost, and packages that waited when the window began.
pub record History : Type 0 where
  pub since : ℕ
  pub sends : ℕ
  pub bytes : ℕ
  pub acks : ℕ
  pub losses : ℕ
  pub carried : ℕ

abbrev pub nothing_yet : History
nothing_yet = record { since = 0; sends = 0; bytes = 0; acks = 0; losses = 0; carried = 0 }

abbrev pub after_send : (pkglen : ℕ) → History → History
after_send pkglen h = record h { sends = h.sends + 1; bytes = h.bytes + (qos_hdr_len + pkglen) }

-- Whether the package acknowledges one that waits.
abbrev pub answers_one : QosHdr → List PackageEntry → Bool
answers_one pkg queue = not (pkg.ack_timestamp == 0) && has pkg.ack_timestamp (timestamps queue)

abbrev pub after_receive : Bool → History → History
after_receive answered h = if answered then record h { acks = h.acks + 1 } else h

length-snoc : (q : List PackageEntry) (e : PackageEntry) → length (q ++ e ∷ []) ≡ length q + 1
length-snoc [] e = omega arith
length-snoc (x ∷ q) e = ground (arith, length-snoc q e)

length-stamp : (a ts : ℕ) (q : List PackageEntry) → length (stamp a ts q) ≡ length q
unfolding stamp
length-stamp a ts [] = refl
length-stamp a ts (e ∷ q) = ground (arith, length-stamp a ts q)

-- What the search finds is in the queue, and is found exactly if its timestamp is there.
found_length :
    (q : List PackageEntry) (ts : ℕ) (e : PackageEntry)
    → get_pkg_entry q ts ≡ some e
    → length (del_entry e.addr q) + 1 ≡ length q
unfolding get_pkg_entry del_entry
found_length [] ts e got = ground arith
found_length (x ∷ q) ts e got = ground (arith, found_length q ts e)

found_has :
    (q : List PackageEntry) (ts : ℕ) (e : PackageEntry)
    → get_pkg_entry q ts ≡ some e
    → has ts (timestamps q) ≡ true
unfolding get_pkg_entry
found_has [] ts e got = ground arith
found_has (x ∷ q) ts e got = ground (arith, found_has q ts e)

missing_has :
    (q : List PackageEntry) (ts : ℕ) → get_pkg_entry q ts ≡ none → has ts (timestamps q) ≡ false
unfolding get_pkg_entry
missing_has [] ts got = ground arith
missing_has (x ∷ q) ts got = ground (arith, missing_has q ts)

module _ {D : Type 0} (F : DoubleOps D) where
  -- The entries that are older than the round-trip time.
  abbrev pub overdue_count : (now : ℕ) → D → List PackageEntry → ℕ
  overdue_count now rtt [] = 0
  overdue_count now rtt (e ∷ q) =
      let n = overdue_count now rtt q in if overdue F now rtt e then n + 1 else n

  -- After a run of the statistics with this report.
  abbrev pub after_stat : (now : ℕ) → Qos D → Option (Report D) → History → History
  after_stat now q none h =
      if h.since == 0
      then record h { since = now }
      else record h { losses = h.losses + overdue_count now q.rtt q.sent_queue }
  after_stat now q (some r) h = record nothing_yet {
    since = now;
    carried = h.carried + h.sends - h.acks - (h.losses + overdue_count now q.rtt q.sent_queue);
  }

  pub data QosReach (memory : Qos D) : Qos D → History → Type 0 where
    initialised : QosReach memory (qos_init F memory) nothing_yet
    sends_one :
        {q : Qos D} {h : History} (addr ts : ℕ) (junk : List ℕ) (pkglen : ℕ)
        → QosReach memory q h
        → QosReach memory (sent_at F addr ts junk pkglen q) (after_send pkglen h)
    receives :
        {q : Qos D} {h : History} (pkg : QosHdr) (recv_ts : ℕ)
        → QosReach memory q h
        → QosReach memory
            (process_package F pkg recv_ts q)
            (after_receive (answers_one pkg q.sent_queue) h)
    counts :
        {q q' : Qos D} {h : History} (now : ℕ) (rep : Option (Report D))
        → QosReach memory q h
        → qos_stat F now q ≡ some (q', rep)
        → QosReach memory q' (after_stat now q rep h)

  -- The state tells what the history says.
  pub record IsAccounted (q : Qos D) (h : History) : Type 0 where
    pub window : q.stat_interval ≡ 1000
    pub begun : q.last_stat_ts ≡ h.since
    pub sent : q.sent_packages_per_secs ≡ u32 h.sends
    pub bytes : q.sent_bytes ≡ u32 h.bytes
    pub loss : q.loss_packages_per_secs ≡ u32 h.losses
    pub queue : length q.sent_queue + h.acks + h.losses ≡ h.carried + h.sends

  pub sweep-counts :
      (now : ℕ) (rtt : D) (loss n : ℕ) (q : List PackageEntry)
      → loss ≡ u32 n
      → ((sweep F now rtt loss q).0 ≡ u32 (n + overdue_count now rtt q))
        × (length (sweep F now rtt loss q).1 + overdue_count now rtt q ≡ length q)
  unfolding sweep
  sweep-counts now rtt loss n [] e = ground arith
  sweep-counts now rtt loss n (x ∷ q) e =
      let one_more : u32 (loss + 1) ≡ u32 (n + 1) = omega arith in
      let lost = sweep-counts now rtt (u32 (loss + 1)) (n + 1) q one_more in
      let kept = sweep-counts now rtt loss n q e in
      elim (Bool-cases (overdue F now rtt x)) [
        | inl old ↦ ground (arith, lost)
        | inr young ↦ ground (arith, kept)
      ]

  sent_at-IsAccounted :
      (addr ts : ℕ) (junk : List ℕ) (pkglen : ℕ) (q : Qos D) (h : History)
      → IsAccounted q h
      → IsAccounted (sent_at F addr ts junk pkglen q) (after_send pkglen h)
  unfolding create_package
  sent_at-IsAccounted addr ts junk pkglen q h i =
      let made = create_package F addr 0 junk pkglen q in
      let e : PackageEntry = record { addr = addr; message = made.0; flag = 0 } in
      let longer : length (stamp addr ts (q.sent_queue ++ e ∷ [])) ≡ length q.sent_queue + 1 =
        length-stamp addr ts (q.sent_queue ++ e ∷ []) ∙ length-snoc q.sent_queue e in
      record {
        window = i.window;
        begun = i.begun;
        sent = omega (arith, i.sent);
        bytes = omega (arith, i.bytes);
        loss = i.loss;
        queue = omega (arith, i.queue, longer);
      }

  process_package-IsAccounted :
      (pkg : QosHdr) (recv_ts : ℕ) (q : Qos D) (h : History)
      → IsAccounted q h
      → IsAccounted
          (process_package F pkg recv_ts q)
          (after_receive (answers_one pkg q.sent_queue) h)
  unfolding process_package acknowledge update_rtt
  process_package-IsAccounted pkg recv_ts q h i = elim (Bool-cases (pkg.ack_timestamp == 0)) [
    | inl zero_ack ↦ rw zero_ack i
    | inr other ↦ elim (Option-cases (get_pkg_entry q.sent_queue pkg.ack_timestamp)) [
      | inl missing ↦
          rw other (rw missing (rw (missing_has q.sent_queue pkg.ack_timestamp missing) i))
      | inr (e, found) ↦ rw other (
          rw found (
            rw (found_has q.sent_queue pkg.ack_timestamp e found) (record {
              window = i.window;
              begun = i.begun;
              sent = i.sent;
              bytes = i.bytes;
              loss = i.loss;
              queue = omega (arith, i.queue, found_length q.sent_queue pkg.ack_timestamp e found);
            })))
    ]
  ]

  qos_stat-IsAccounted :
      (now : ℕ) (rep : Option (Report D)) (q q' : Qos D) (h : History)
      → qos_stat F now q ≡ some (q', rep)
      → IsAccounted q h
      → IsAccounted q' (after_stat now q rep h)
  unfolding qos_stat close_window
  qos_stat-IsAccounted now none q q' h ran i =
      let swept = sweep-counts now q.rtt q.loss_packages_per_secs h.losses q.sent_queue i.loss in
      record {
        window = ground (arith, i.window);
        begun = ground (arith, i.begun);
        sent = ground (arith, i.sent, i.begun);
        bytes = ground (arith, i.bytes, i.begun);
        loss = ground (arith, i.loss, i.begun, swept);
        queue = ground (arith, i.queue, i.begun, swept);
      }
  qos_stat-IsAccounted now (some r) q q' h ran i =
      let swept = sweep-counts now q.rtt q.loss_packages_per_secs h.losses q.sent_queue i.loss in
      record {
        window = ground (arith, i.window);
        begun = ground (arith, i.begun);
        sent = ground (arith, i.sent);
        bytes = ground (arith, i.bytes);
        loss = ground (arith, i.loss);
        queue = ground (arith, i.queue, swept);
      }

  -- From the initialisation on, whatever packages are sent, whatever arrives and whenever the
  -- statistics run, the state tells what has happened since the window began: the window is 1000
  -- milliseconds and `last_stat_ts` is when it began, the counters are the sends, their bytes and
  -- the losses modulo 2^32, and the packages that wait, the acknowledgements that found theirs and
  -- the losses are together the packages that waited when the window began and the sends. A history
  -- records what happened; an acknowledgement counts exactly if a package with its timestamp waits,
  -- and a package counts as lost if it is older than the round-trip time at a run of the statistics
  -- where `last_stat_ts` is not 0.
  pub QosReach-IsAccounted :
      (memory q : Qos D) (h : History) → QosReach memory q h → IsAccounted q h
  QosReach-IsAccounted memory _ _ initialised =
      unfold qos_init in
      record {
        window = refl;
        begun = refl;
        sent = omega arith;
        bytes = omega arith;
        loss = omega arith;
        queue = omega arith;
      }
  QosReach-IsAccounted memory _ _ (sends_one {q} {h} addr ts junk pkglen reach) =
      sent_at-IsAccounted addr ts junk pkglen q h (QosReach-IsAccounted memory q h reach)
  QosReach-IsAccounted memory _ _ (receives {q} {h} pkg recv_ts reach) =
      process_package-IsAccounted pkg recv_ts q h (QosReach-IsAccounted memory q h reach)
  QosReach-IsAccounted memory _ _ (counts {q} {q'} {h} now rep reach ran) =
      qos_stat-IsAccounted now rep q q' h ran (QosReach-IsAccounted memory q h reach)
