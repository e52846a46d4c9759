-- ===== src/Checker/Args.antt =====
-- nwchecker.c and nwchecker.h of 04-24_UNIX异步IO机制: the options and the programs that they choose.
-- `getopt_long` gives the option characters (1 to 5 for those without one) with their arguments, and
-- `atoi` is a parameter.
use Prim.Native.String.{String}
use imooc_sock_core_tech.Prelude.{
  ℕ, ◌-◌, ◌%◌, ◌^◌, Bool, true, false, Option, none, some, List, [], ◌∷◌, ◌==◌, if◌then◌else◌,
}
use imooc_sock_core_tech.Prelude.Int.{ℤ, pos, negsuc}

-- `struct nwc_args`, with the two variables `mode` and `trans_type` of `main`.
pub record NwcArgs : Type 0 where
  pub ip : Option String
  pub localaddr : Option String
  pub port : ℕ
  pub count : ℤ
  pub no_close : Bool
  pub interval : ℤ
  pub sent_pkgs : ℤ
  pub message_size : ℤ
  pub echo_mode : ℤ
  pub is_udp_connect : Bool
  pub mode : ℕ
  pub trans_type : ℕ

-- `memset(&na, 0, sizeof(na))`
abbrev pub zero_args : NwcArgs
zero_args = record {
  ip = none;
  localaddr = none;
  port = 0;
  count = pos 0;
  no_close = false;
  interval = pos 0;
  sent_pkgs = pos 0;
  message_size = pos 0;
  echo_mode = pos 0;
  is_udp_connect = false;
  mode = 0;
  trans_type = 0;
}

-- An `int` as an `unsigned short`.
abbrev pub to_u16 : ℤ → ℕ
to_u16 (pos n) = n % 2 ^ 16
to_u16 (negsuc n) = 2 ^ 16 - 1 - n % 2 ^ 16

module _ (atoi : String → ℤ) where
  -- One turn of the `switch`; `none` is `usage()`, which exits.
  unfoldable pub take_option : (c : ℕ) (optarg : String) → NwcArgs → Option NwcArgs
  take_option c optarg na =
      if c == b'h'
      then none
      else if c == b'c'
      then some (record na { mode = 1 })
      else if c == b's'
      then some (record na { mode = 2 })
      else if c == b'p'
      then some (record na { port = to_u16 (atoi optarg) })
      else if c == b'a'
      then some (record na { ip = some optarg })
      else if c == b'l'
      then some (record na { localaddr = some optarg })
      else if c == b'o'
      then some (record na { count = atoi optarg })
      else if c == b'n'
      then some (record na { no_close = true })
      else if c == b'i'
      then some (record na { interval = atoi optarg })
      else if c == b'e'
      then some (record na { sent_pkgs = atoi optarg })
      else if c == b'g'
      then some (record na { message_size = atoi optarg })
      else if c == b'm'
      then some (record na { echo_mode = atoi optarg })
      else if c == b't'
      then some (record na { trans_type = 1 })
      else if c == b'u'
      then some (record na { trans_type = 2 })
      else if c == 1
      then some (record na { is_udp_connect = true })
      else if c == 2
      then some (record na { trans_type = 3 })
      else if c == 3
      then some (record na { trans_type = 4 })
      else if c == 4
      then some (record na { trans_type = 5 })
      else if c == 5
      then some (record na { trans_type = 6 })
      else none

  unfoldable pub take_options : List (ℕ × String) → NwcArgs → Option NwcArgs
  unfolding take_option
  take_options [] na = some na
  take_options ((c, optarg) ∷ options) na = elim (take_option c optarg na) [
    | none ↦ none
    | some na' ↦ take_options options na'
  ]

-- What `main` runs.
pub data Program : Type 0 where
  tcp_client udp_client stream_client dgram_client : Program
  tcp_server udp_server stream_server dgram_server : Program
  process_server sigio_server : Program

unfoldable pub client_program : (trans_type : ℕ) → Option Program
client_program trans_type =
    if trans_type == 1
    then some tcp_client
    else if trans_type == 2
    then some udp_client
    else if trans_type == 3
    then some stream_client
    else if trans_type == 4
    then some dgram_client
    else none

unfoldable pub server_program : (trans_type : ℕ) → Option Program
server_program trans_type =
    if trans_type == 1
    then some tcp_server
    else if trans_type == 2
    then some udp_server
    else if trans_type == 3
    then some stream_server
    else if trans_type == 4
    then some dgram_server
    else if trans_type == 5
    then some process_server
    else if trans_type == 6
    then some sigio_server
    else none

-- The end of `main`; `daemon_ok` tells whether `daemon` succeeds, and the outer `none` is `exit(-1)`.
unfoldable pub choose_program : (daemon_ok : Bool) → NwcArgs → Option (Option Program)
unfolding client_program server_program
choose_program daemon_ok na =
    if na.mode == 1
    then some (client_program na.trans_type)
    else if na.mode == 2
    then if daemon_ok then some (server_program na.trans_type) else none
    else some none
