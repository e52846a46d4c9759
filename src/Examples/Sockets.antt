-- ===== src/Examples/Sockets.antt =====
-- The sockets and the configuration.
use Prim.Native.String.{String}
use imooc_sock_core_tech.Prelude.{ℕ, ◌≡◌, refl, true, false, some, [], ◌∷◌}
use imooc_sock_core_tech.Types.{econnrefused, nwc_server}
use imooc_sock_core_tech.Sock.{
  Candidate, connected, connect_failed, sock_stream, af_inet, sock_listen, sock_connect,
}
use imooc_sock_core_tech.Sock.Leaks.{open_after, fd_list, sock_listen-open, sock_connect-open}
use imooc_sock_core_tech.Config.{Configuration, zero_configuration, configuration_parse}

-- An address that refuses connections and can not be bound.
abbrev refusing : Candidate
refusing = record {
  family = af_inet;
  socktype = sock_stream;
  socket_reply = some 5;
  reuse_ok = true;
  bind_ok = false;
  connect_reply = connect_failed econnrefused;
}

abbrev good : Candidate
good = record refusing { socket_reply = some 6; bind_ok = true; connect_reply = connected }

sock_listen-open_example :
    open_after
      (4 ∷ [])
      (sock_listen (λ p. some (refusing ∷ good ∷ [])) true af_inet sock_stream 80).1
    ≡ fd_list
        (sock_listen (λ p. some (refusing ∷ good ∷ [])) true af_inet sock_stream 80).0
        (4 ∷ [])
sock_listen-open_example =
    sock_listen-open (λ p. some (refusing ∷ good ∷ [])) true af_inet sock_stream 80 (4 ∷ [])

sock_connect-open_example :
    open_after (4 ∷ []) (sock_connect (λ p. some (refusing ∷ good ∷ [])) 80).2
    ≡ fd_list (sock_connect (λ p. some (refusing ∷ good ∷ [])) 80).1 (4 ∷ [])
sock_connect-open_example = sock_connect-open (λ p. some (refusing ∷ good ∷ [])) 80 (4 ∷ [])

-- Every argument is read as 70000.
abbrev reads_70000 : String → ℕ
reads_70000 text = 70000

abbrev server_at_4464 : Configuration
server_at_4464 = record zero_configuration { mode = nwc_server; port = 4464 }

parse_server :
    configuration_parse reads_70000 ((b's', "") ∷ (b'p', "70000") ∷ []) zero_configuration
    ≡ some server_at_4464
unfolding configuration_parse
parse_server = refl
