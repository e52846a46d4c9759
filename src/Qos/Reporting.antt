-- ===== src/Qos/Reporting.antt =====
-- What `nwc_qos_stat` (nwc_qos_protocol.c) prints, against the history of the accounting.
use imooc_sock_core_tech.Prelude.{
  ℕ, ◌+◌, ◌*◌, ◌/◌, ◌^◌, ◌≡◌, ◌∙◌, refl, Bool, true, false, Bool-cases, inl, inr, ◌&&◌, some, none,
  Option, arith, ◌==◌, ltb, leb, if◌then◌else◌,
}
use imooc_sock_core_tech.Types.{u32, sub32}
use imooc_sock_core_tech.Qos.{
  DoubleOps, Qos, Report, qos_stat, window_over, sweep, close_window, loss_ratio,
}
use imooc_sock_core_tech.Qos.Reach.{
  History, overdue_count, sweep-counts, IsAccounted, QosReach, QosReach-IsAccounted,
}

-- A second or more has passed since the window began, in 32 bits.
abbrev pub second_over : (now since : ℕ) → Bool
second_over now since = let d = sub32 now since in ltb d (2 ^ 31) && leb 1000 d

module _ {D : Type 0} (F : DoubleOps D) where
  -- Losses in sends of the window, and what IEEE 754 makes of a window without a send.
  abbrev pub rate_of : (losses sends : ℕ) → D
  rate_of losses sends =
      if u32 sends == 0
      then (if u32 losses == 0 then F.nan else F.infinity)
      else F.div (F.of_u32 (u32 losses)) (F.of_u32 (u32 sends))

  -- The report that a run at `now` has to make.
  abbrev pub expected_report : (now : ℕ) → Qos D → History → Option (Report D)
  expected_report now q h =
      if h.since == 0
      then none
      else if second_over now h.since
      then some (record {
        bandwidth = u32 (u32 h.bytes * 8);
        rtt = q.rtt;
        jitter = q.jitter;
        loss_rate =
            F.div (rate_of (h.losses + overdue_count F now q.rtt q.sent_queue) h.sends)
              (F.of_u32 1);
      })
      else none

  same_ratio :
      (loss sent n m : ℕ) → loss ≡ u32 n → sent ≡ u32 m → loss_ratio F loss sent ≡ rate_of n m
  unfolding loss_ratio
  same_ratio loss sent n m e d = rw e (rw d refl)

  -- The run that ends a window.
  closing-report :
      (now : ℕ) (q : Qos D) (n : ℕ) (h : History)
      → q.stat_interval ≡ 1000
      → q.loss_packages_per_secs ≡ u32 n
      → q.sent_packages_per_secs ≡ u32 h.sends
      → q.sent_bytes ≡ u32 h.bytes
      → (q' : Qos D) × (close_window F now q
          ≡ some (
            q',
            some (record {
              bandwidth = u32 (u32 h.bytes * 8);
              rtt = q.rtt;
              jitter = q.jitter;
              loss_rate = F.div (rate_of n h.sends) (F.of_u32 1);
            }),
          ))
  unfolding close_window
  closing-report now q n h window loss sent bytes =
      let q' : Qos D = record q {
        sent_bytes = 0;
        loss_packages_per_secs = 0;
        sent_packages_per_secs = 0;
        last_stat_ts = now;
      } in
      let secs : q.stat_interval / 1000 ≡ 1 = omega (arith, window) in
      let bandwidth : u32 (q.sent_bytes * 8) / 1 ≡ u32 (u32 h.bytes * 8) = omega (arith, bytes) in
      (
        q',
        rw secs (
            rw bandwidth (
              rw (same_ratio q.loss_packages_per_secs q.sent_packages_per_secs n h.sends loss sent)
                refl)),
      )

  -- The state after the sweep.
  abbrev swept_at : (now : ℕ) → Qos D → Qos D
  swept_at now q =
      let swept = sweep F now q.rtt q.loss_packages_per_secs q.sent_queue in
      record q { loss_packages_per_secs = swept.0; sent_queue = swept.1 }

  stat-closes :
      (now : ℕ) (q : Qos D)
      → (q.last_stat_ts == 0) ≡ false
      → window_over F now (swept_at now q) ≡ true
      → qos_stat F now q ≡ close_window F now (swept_at now q)
  unfolding qos_stat
  stat-closes now q later over = rw later (rw over refl)

  stat-goes_on :
      (now : ℕ) (q : Qos D)
      → (q.last_stat_ts == 0) ≡ false
      → window_over F now (swept_at now q) ≡ false
      → qos_stat F now q ≡ some (swept_at now q, none)
  unfolding qos_stat
  stat-goes_on now q later going_on = rw later (rw going_on refl)

  swept-window_over :
      (now : ℕ) (q : Qos D) (h : History)
      → IsAccounted F q h
      → window_over F now (swept_at now q) ≡ second_over now h.since
  unfolding window_over
  swept-window_over now q h i = rw i.begun (rw i.window refl)

  stat-report :
      (now : ℕ) (q : Qos D) (h : History)
      → IsAccounted F q h
      → (q' : Qos D) × (qos_stat F now q ≡ some (q', expected_report now q h))
  stat-report now q h i =
      let n = h.losses + overdue_count F now q.rtt q.sent_queue in
      let counted =
        (sweep-counts F now q.rtt q.loss_packages_per_secs h.losses q.sent_queue i.loss).0 in
      let (q2, closes) = closing-report now (swept_at now q) n h i.window counted i.sent i.bytes in
      let over_iff = swept-window_over now q h i in
      elim (Bool-cases (h.since == 0)) [
        | inl first ↦
            (record q { last_stat_ts = now }, unfold qos_stat in rw i.begun (rw first refl))
        | inr later ↦
            let begun : (q.last_stat_ts == 0) ≡ false = rw i.begun later in
            elim (Bool-cases (second_over now h.since)) [
              | inl over ↦
                  (q2, rw later (rw over (stat-closes now q begun (over_iff ∙ over) ∙ closes)))
              | inr going_on ↦ (
                swept_at now q,
                rw later (rw going_on (stat-goes_on now q begun (over_iff ∙ going_on))),
              )
            ]
      ]

  -- In every state that sends, arrivals and runs of the statistics lead to from the initialisation,
  -- a run of `nwc_qos_stat` ends, without an integer division by zero, and reports exactly what the
  -- history says: nothing where the window began at 0, as before the first run, or less than a
  -- second ago, as a signed difference of 32 bits, and otherwise the window's bits modulo 2^32, the
  -- round-trip time, the jitter, and the losses, those of this run included, over the sends of the
  -- window. Where the window has no sends (modulo 2^32), this quotient of doubles is infinite, or
  -- NaN if there are no losses either.
  pub QosReach-report :
      (memory q : Qos D) (h : History) (now : ℕ)
      → QosReach F memory q h
      → (q' : Qos D) × (qos_stat F now q ≡ some (q', expected_report now q h))
  QosReach-report memory q h now reach =
      stat-report now q h (QosReach-IsAccounted F memory q h reach)
