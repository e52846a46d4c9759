-- ===== src/Examples/Exchange.antt =====
-- A client and a server with a package on its way.
use imooc_sock_core_tech.Prelude.{
  ℕ, zero, suc, ◌≡◌, refl, none, some, List, [], ◌∷◌, arith, ◌==◌, if◌then◌else◌, length,
}
use imooc_sock_core_tech.Prelude.Int.{pos}
use imooc_sock_core_tech.Types.{nwc_server}
use imooc_sock_core_tech.Outcome.{done}
use imooc_sock_core_tech.Qos.{QosHdr, milisecs}
use imooc_sock_core_tech.Qos.Roundtrip.{sent_at}
use imooc_sock_core_tech.Wire.{encode}
use imooc_sock_core_tech.Config.{zero_configuration}
use imooc_sock_core_tech.Io.{tcp_handler, nts_established}
use imooc_sock_core_tech.World.{Conn, State, received, sent}
use imooc_sock_core_tech.Conn.Receive.{connection_on_recv}
use imooc_sock_core_tech.Conn.Replies.{reply_to}
use imooc_sock_core_tech.Conn.Exchange.{stamped, package_exchange}
use imooc_sock_core_tech.Examples.Data.{
  eighths, always_ok, waiting_entry, one_waiting, kept_five, tcp_io, no_world, idle,
}

abbrev zeros : ℕ → List ℕ
zeros zero = []
zeros (suc n) = 0 ∷ zeros n

length-zeros : (n : ℕ) → length (zeros n) ≡ n
length-zeros zero = refl
length-zeros (suc n) = omega (arith, length-zeros n)

abbrev kept_none : Conn ℕ
kept_none = record kept_five { recv_buff = []; rbytes = 0 }

abbrev sent_package : QosHdr
sent_package = stamped eighths 31 40 (zeros 1300) one_waiting

abbrev server : State ℕ
server = idle (record no_world {
  ios = λ p. if p == 20 then some (tcp_handler tcp_io nts_established) else none;
  conns = λ p. if p == 10 then some kept_none else none;
  clock = (5, 0) ∷ (6, 0) ∷ [];
  recvs = received (encode sent_package) ∷ [];
  sends = sent 20 ∷ [];
  cfg = record zero_configuration { mode = nwc_server };
})

abbrev sender : Conn ℕ
sender = record kept_none { qos = sent_at eighths 31 40 (zeros 1300) 1300 one_waiting }

abbrev client : State ℕ
client = idle (record no_world {
  ios = λ p. if p == 20 then some (tcp_handler tcp_io nts_established) else none;
  conns = λ p. if p == 10 then some sender else none;
  clock = (7, 0) ∷ [];
  recvs = received (encode (reply_to (milisecs 5 0) sent_package (6, 0))) ∷ [];
})

package_exchange_example :
    (t : State ℕ) × (u : State ℕ) × (d : Conn ℕ) × (connection_on_recv eighths always_ok 2 10 server
      ≡ done (pos 0, t))
    × (t.user.wire ≡ (pos 4, encode (reply_to (milisecs 5 0) sent_package (6, 0))) ∷ [])
    × (connection_on_recv eighths always_ok 2 10 client ≡ done (pos 0, u))
    × (u.user.conns 10 ≡ some d)
    × (d.qos.sent_queue ≡ waiting_entry ∷ [])
package_exchange_example =
    package_exchange eighths always_ok 10 20 kept_none tcp_io nts_established server [] (5, 0)
      (6, 0) [] [] 10 20 sender tcp_io nts_established client [] (7, 0) [] 31 40 (zeros 1300)
      one_waiting
      (record {
        conn = refl;
        handle = refl;
        handler = refl;
        can = refl;
        send = refl;
        server = refl;
      })
      refl refl refl refl refl refl
      (record {
        conn = refl;
        handle = refl;
        handler = refl;
        recv = refl;
        client = refl;
        kept = refl;
        count = refl;
      })
      refl refl refl (length-zeros 1300) (omega arith) (λ e. absurd (omega arith)) (refl, tt) refl
      refl
