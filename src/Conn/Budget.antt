-- ===== src/Conn/Budget.antt =====
-- The share of the bandwidth that a connection may send in one twentieth of a second.
use imooc_sock_core_tech.Prelude.{ℕ, ◌+◌, ◌*◌, ◌/◌, ◌^◌, ◌≤◌, ◌<◌, arith}
use imooc_sock_core_tech.Conn.{send_budget}

-- For a given bandwidth in bits per second that is not 0 and fits 32 bits, twenty shares cover its
-- bytes, and they exceed them by at most 19.
pub send_budget_share :
    (bandwidth : ℕ)
    → 0 < bandwidth
    → bandwidth < 2 ^ 32
    → (bandwidth / 8 ≤ 20 * send_budget bandwidth)
      × (20 * send_budget bandwidth ≤ bandwidth / 8 + 19)
unfolding send_budget
send_budget_share bandwidth pos fits = ground arith
