-- ===== src/Config/Parsing.antt =====
-- What `nwc_configuration_parse` (nwc_configuration.c) keeps of the options.
use Prim.Native.String.{String}
use imooc_sock_core_tech.Prelude.{
  ℕ, ◌^◌, ◌<◌, ◌≡◌, ◌⊎◌, inl, inr, some, List, [], ◌∷◌, arith, Option-cases,
}
use imooc_sock_core_tech.Types.{nwc_client, nwc_server, nwc_proto_tcp, nwc_proto_udp}
use imooc_sock_core_tech.Config.{Configuration, parse_option, configuration_parse}

-- The port fits 16 bits; the mode is none, client or server, and the protocol none, TCP or UDP.
pub record IsSane (config : Configuration) : Type 0 where
  pub port : config.port < 2 ^ 16
  pub mode : (config.mode ≡ 0) ⊎ ((config.mode ≡ nwc_client) ⊎ (config.mode ≡ nwc_server))
  pub prototype :
      (config.prototype ≡ 0)
      ⊎ ((config.prototype ≡ nwc_proto_tcp) ⊎ (config.prototype ≡ nwc_proto_udp))

module _ (atoi : String → ℕ) where
  parse_option-IsSane :
      (c : ℕ) (optarg : String) (config config' : Configuration)
      → IsSane config
      → parse_option atoi c optarg config ≡ some config'
      → IsSane config'
  unfolding parse_option
  parse_option-IsSane c optarg config config' sane e = record {
    port = ground (arith, sane.port);
    mode = ground (arith, sane.mode);
    prototype = ground (arith, sane.prototype);
  }

  -- Whatever the options are and whatever `atoi` makes of their arguments, a parse that does not
  -- end in the usage message, from a configuration whose port fits 16 bits and whose mode and
  -- protocol are 0 or known values, gives such a configuration again.
  pub configuration_parse-IsSane :
      (options : List (ℕ × String)) (config config' : Configuration)
      → IsSane config
      → configuration_parse atoi options config ≡ some config'
      → IsSane config'
  unfolding configuration_parse
  configuration_parse-IsSane [] config config' sane e = record {
    port = ground (arith, sane.port);
    mode = ground (arith, sane.mode);
    prototype = ground (arith, sane.prototype);
  }
  configuration_parse-IsSane ((c, optarg) ∷ options) config config' sane e =
      elim (Option-cases (parse_option atoi c optarg config)) [
        | inl usage ↦ cc
        | inr (config1, parsed) ↦
            configuration_parse-IsSane options config1 config'
              (parse_option-IsSane c optarg config config1 sane parsed) (ground (arith, parsed))
      ]
