-- ===== src/Config.antt =====
-- 04-30_nwchecker_refactor/nwc_configuration.c and .h. `getopt_long` gives the option characters
-- with their arguments, and `atoi` is a parameter. An `int` stands as its bit pattern.
pub mod Parsing
use Prim.Native.String.{String}
use imooc_sock_core_tech.Prelude.{
  ℕ, ◌%◌, ◌^◌, Option, none, some, List, [], ◌∷◌, ◌==◌, if◌then◌else◌,
}
use imooc_sock_core_tech.Types.{nwc_client, nwc_server, nwc_proto_tcp, nwc_proto_udp}

pub record Configuration : Type 0 where
  pub ip : Option String
  pub port : ℕ
  pub mode : ℕ
  pub prototype : ℕ
  pub count_secs : ℕ
  pub bandwidth : ℕ

-- `memset(&cfg, 0, …)`
abbrev pub zero_configuration : Configuration
zero_configuration = record {
  ip = none;
  port = 0;
  mode = 0;
  prototype = 0;
  count_secs = 0;
  bandwidth = 0;
}

module _ (atoi : String → ℕ) where
  -- One turn of the `switch`; `none` is `usage()`, which exits.
  unfoldable pub parse_option : (c : ℕ) (optarg : String) → Configuration → Option Configuration
  parse_option c optarg config =
      if c == b'h'
      then none
      else if c == b'c'
      then some (record config { mode = nwc_client })
      else if c == b's'
      then some (record config { mode = nwc_server })
      else if c == b'p'
      then some (record config { port = atoi optarg % 2 ^ 16 })
      else if c == b'a'
      then some (record config { ip = some optarg })
      else if c == b'o'
      then some (record config { count_secs = atoi optarg })
      else if c == b'b'
      then some (record config { bandwidth = atoi optarg })
      else if c == b't'
      then some (record config { prototype = nwc_proto_tcp })
      else if c == b'u'
      then some (record config { prototype = nwc_proto_udp })
      else none

  unfoldable pub configuration_parse : List (ℕ × String) → Configuration → Option Configuration
  unfolding parse_option
  configuration_parse [] config = some config
  configuration_parse ((c, optarg) ∷ options) config = elim (parse_option c optarg config) [
    | none ↦ none
    | some config' ↦ configuration_parse options config'
  ]
