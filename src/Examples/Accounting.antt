-- ===== src/Examples/Accounting.antt =====
-- The accounting of packages, their bytes, and the clock.
use imooc_sock_core_tech.Prelude.{ℕ, ◌≡◌, refl, none, some, [], ◌∷◌, arith}
use imooc_sock_core_tech.Qos.{
  qos_init, create_package, stamp, Qos, window_over, sweep, overdue, qos_stat, process_package,
  update_rtt, rtt_sample, create_ack_package,
}
use imooc_sock_core_tech.Qos.Ack.{process_package-acked}
use imooc_sock_core_tech.Qos.Stat.{AllYoung, Accounted, qos_stat-accounts, qos_stat-late_ack}
use imooc_sock_core_tech.Qos.Roundtrip.{sent_at, acknowledged_package_leaves}
use imooc_sock_core_tech.Qos.Reach.{
  History, nothing_yet, after_send, after_stat, QosReach, initialised, sends_one, counts,
  IsAccounted, QosReach-IsAccounted,
}
use imooc_sock_core_tech.Qos.Reporting.{expected_report, QosReach-report}
use imooc_sock_core_tech.Examples.Data.{eighths, ack_package, waiting_entry, one_waiting}

process_package-acked_example :
    process_package eighths ack_package 10 one_waiting
    ≡ record (update_rtt eighths (rtt_sample eighths ack_package 10) one_waiting) {
      sent_queue = [];
    }
process_package-acked_example =
    process_package-acked eighths one_waiting ack_package 10 [] [] waiting_entry refl (refl, tt)
      refl refl (λ e. absurd (omega arith))

-- After a run within the first window, 5 milliseconds on: the waiting package is lost.
abbrev one_lost : Qos ℕ
one_lost = record one_waiting { loss_packages_per_secs = 1; sent_queue = [] }

stat_at_5 : qos_stat eighths 5 one_waiting ≡ some (one_lost, none)
unfolding qos_stat window_over sweep overdue
stat_at_5 = refl

qos_stat-accounts_example : AllYoung eighths 5 0 [] × Accounted eighths 5 one_waiting one_lost none
qos_stat-accounts_example =
    qos_stat-accounts eighths 5 one_waiting one_lost none (λ e. absurd (omega arith)) (omega arith)
      stat_at_5

qos_stat-late_ack_example : process_package eighths ack_package 9 one_lost ≡ one_lost
qos_stat-late_ack_example =
    qos_stat-late_ack eighths 5 9 one_waiting one_lost none ack_package (λ e. absurd (omega arith))
      stat_at_5 refl

acknowledged_package_leaves_example :
    (process_package eighths
      (record (create_ack_package eighths 0 40) { recv_delay = 1; timestamp = 50 })
      60
      (sent_at eighths 31 40 [] 1300 one_waiting)).sent_queue
    ≡ waiting_entry ∷ []
acknowledged_package_leaves_example =
    acknowledged_package_leaves eighths 31 40 1 50 60 1300 [] one_waiting (refl, tt) refl refl
      (λ e. absurd (omega arith))

-- One package is sent after the initialisation.
abbrev one_sent : Qos ℕ
one_sent = sent_at eighths 31 40 [] 1300 (qos_init eighths one_waiting)

one_sent-reached : QosReach eighths one_waiting one_sent (after_send 1300 nothing_yet)
one_sent-reached = sends_one 31 40 [] 1300 initialised

-- The statistics run for the first time at 50.
abbrev window_begun : Qos ℕ
window_begun = record one_sent { last_stat_ts = 50 }

begin_at_50 : qos_stat eighths 50 one_sent ≡ some (window_begun, none)
unfolding qos_stat qos_init create_package
begin_at_50 = refl

abbrev begun_history : History
begun_history = after_stat eighths 50 one_sent none (after_send 1300 nothing_yet)

window_begun-reached : QosReach eighths one_waiting window_begun begun_history
window_begun-reached = counts 50 none one_sent-reached begin_at_50

QosReach-IsAccounted_example : IsAccounted eighths window_begun begun_history
QosReach-IsAccounted_example =
    QosReach-IsAccounted eighths one_waiting window_begun begun_history window_begun-reached

QosReach-report_example :
    (q' : Qos ℕ) × (qos_stat eighths 1050 window_begun
      ≡ some (q', expected_report eighths 1050 window_begun begun_history))
QosReach-report_example =
    QosReach-report eighths one_waiting window_begun begun_history 1050 window_begun-reached

-- The package is lost, so the one send of the window has a loss rate of 1, and has used 10528 bits.
report_at_1050 :
    expected_report eighths 1050 window_begun begun_history
    ≡ some (record { bandwidth = 10528; rtt = 0; jitter = 0; loss_rate = 8 })
unfolding overdue create_package qos_init stamp
report_at_1050 = refl
