-- ===== src/Qos/Clock.antt =====
-- The clock of nwc_qos_protocol.c.
use imooc_sock_core_tech.Prelude.{ℕ, ◌+◌, ◌<◌, arith}
use imooc_sock_core_tech.Qos.{milisecs}

-- Within the first 4293 seconds, the clock falls when a second is completed: its value one
-- nanosecond before the second `s + 1` is greater than its value at that second.
pub milisecs_backwards : (s : ℕ) → s < 4293 → milisecs (s + 1) 0 < milisecs s 999_999_999
unfolding milisecs
milisecs_backwards s h = omega arith
