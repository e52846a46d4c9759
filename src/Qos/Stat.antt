-- ===== src/Qos/Stat.antt =====
-- `nwc_qos_stat`: lost packages, the window, and what becomes of a late acknowledgement.
use imooc_sock_core_tech.Prelude.{
  ℕ, ◌+◌, ◌≡◌, ◌≢◌, refl, true, false, none, some, Option, List, [], ◌∷◌, arith, ◌==◌, length,
  ==_iff, ◌≤◌, Bool-cases, inl, inr,
}
use imooc_sock_core_tech.Types.{u32, sub32}
use imooc_sock_core_tech.Qos.{
  DoubleOps, QosHdr, PackageEntry, Qos, Report, get_pkg_entry, overdue, sweep, close_window,
  qos_stat, process_package,
}

module _ {D : Type 0} (F : DoubleOps D) where
  -- No entry of the queue is older than the round-trip time.
  abbrev pub AllYoung : ℕ → D → List PackageEntry → Type 0
  AllYoung now rtt [] = Unit
  AllYoung now rtt (e ∷ q) = (overdue F now rtt e ≡ false) × AllYoung now rtt q

  pub sweep-AllYoung :
      (now : ℕ) (rtt : D) (loss : ℕ) (q : List PackageEntry)
      → AllYoung now rtt (sweep F now rtt loss q).1
  unfolding sweep
  sweep-AllYoung now rtt loss [] = tt
  sweep-AllYoung now rtt loss (e ∷ q) =
      ground (arith, sweep-AllYoung now rtt loss q, sweep-AllYoung now rtt (u32 (loss + 1)) q)

  pub sweep-account :
      (now : ℕ) (rtt : D) (loss : ℕ) (q : List PackageEntry)
      → u32 ((sweep F now rtt loss q).0 + length (sweep F now rtt loss q).1) ≡ u32 (loss + length q)
  unfolding sweep
  sweep-account now rtt loss [] = refl
  sweep-account now rtt loss (e ∷ q) =
      ground (arith, sweep-account now rtt loss q, sweep-account now rtt (u32 (loss + 1)) q)

  pub sweep-late :
      (now : ℕ) (rtt : D) (loss : ℕ) (q : List PackageEntry) (ts : ℕ)
      → F.gt (F.of_u32 (sub32 now ts)) rtt ≡ true
      → get_pkg_entry (sweep F now rtt loss q).1 ts ≡ none
  unfolding sweep overdue get_pkg_entry
  sweep-late now rtt loss [] ts late = refl
  sweep-late now rtt loss (e ∷ q) ts late = elim (Bool-cases (overdue F now rtt e)) [
    | inl old ↦ rw old (sweep-late now rtt (u32 (loss + 1)) q ts late)
    | inr young ↦ rw young (elim (Bool-cases (e.message.timestamp == ts)) [
      | inl same ↦ cc ((==_iff e.message.timestamp ts).0 same)
      | inr other ↦ rw other (sweep-late now rtt loss q ts late)
    ])
  ]

  -- The counters after a run: within a window, and at its end.
  abbrev pub Accounted : ℕ → Qos D → Qos D → Option (Report D) → Type 0
  Accounted now q q' none =
      u32 (q'.loss_packages_per_secs + length q'.sent_queue)
      ≡ u32 (q.loss_packages_per_secs + length q.sent_queue)
  Accounted now q q' (some r) =
      (q'.loss_packages_per_secs ≡ 0)
      × (q'.sent_packages_per_secs ≡ 0)
      × (q'.sent_bytes ≡ 0)
      × (q'.last_stat_ts ≡ now)

  -- A run of `nwc_qos_stat` that does not start the first window and ends, with a window of at
  -- least 1000, leaves no entry in the sent queue that is older than the round-trip time. If it
  -- does not end a window, the loss counter and the queue length together are what they were,
  -- modulo 2^32; if it does, all counters are 0 and the window starts at the time of the run.
  pub qos_stat-accounts :
      (now : ℕ) (q q' : Qos D) (rep : Option (Report D))
      → q.last_stat_ts ≢ 0
      → 1000 ≤ q.stat_interval
      → qos_stat F now q ≡ some (q', rep)
      → AllYoung now q.rtt q'.sent_queue × Accounted now q q' rep
  unfolding qos_stat close_window
  qos_stat-accounts now q q' none nz iv ran =
      let young = sweep-AllYoung now q.rtt q.loss_packages_per_secs q.sent_queue in
      let sums = sweep-account now q.rtt q.loss_packages_per_secs q.sent_queue in ground arith
  qos_stat-accounts now q q' (some r) nz iv ran =
      let young = sweep-AllYoung now q.rtt q.loss_packages_per_secs q.sent_queue in ground arith

  -- An acknowledgement whose timestamp is, at a run of `nwc_qos_stat` that does not start the first
  -- window and ends, older than the round-trip time finds no entry afterwards and changes nothing.
  pub qos_stat-late_ack :
      (now recv_ts : ℕ) (q q' : Qos D) (rep : Option (Report D)) (pkg : QosHdr)
      → q.last_stat_ts ≢ 0
      → qos_stat F now q ≡ some (q', rep)
      → F.gt (F.of_u32 (sub32 now pkg.ack_timestamp)) q.rtt ≡ true
      → process_package F pkg recv_ts q' ≡ q'
  unfolding qos_stat close_window process_package
  qos_stat-late_ack now recv_ts q q' rep pkg nz ran late =
      ground (arith, sweep-late now q.rtt q.loss_packages_per_secs q.sent_queue pkg.ack_timestamp)
