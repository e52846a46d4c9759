-- ===== src/Checker/Messages.antt =====
-- The commands between master and workers in nwchecker_server_multiprocess.c (04-24_UNIX异步IO机制).
-- An `int` stands as its bit pattern, in little-endian order.
use imooc_sock_core_tech.Prelude.{
  ℕ, Option, none, some, List, [], ◌∷◌, ◌==◌, take, drop, if◌then◌else◌,
}
use imooc_sock_core_tech.Outcome.{done, fault}
use imooc_sock_core_tech.Wire.{read_u32}
use imooc_sock_core_tech.Checker.{
  overwrite, Control, message, message_failed, posted, Cmd, pure, ◌>>=◌, on_fd, next_message,
  next_ok,
}

abbrev pub cmd_exit : ℕ
cmd_exit = 1

abbrev pub cmd_fd : ℕ
cmd_fd = 2

abbrev pub scm_rights : ℕ
scm_rights = 1

-- `struct worker_cmd`; `msg` without the 0 at its end.
pub record WorkerCmd : Type 0 where
  pub cmd : ℕ
  pub msg : List ℕ

-- What a worker reads of a message: the command, the text, and the descriptor, `none` for -1.
pub record Notice : Type 0 where
  pub command : WorkerCmd
  pub fd : Option ℕ

-- The loop over the control messages, into room for one descriptor; `none` writes past it.
unfoldable pub copy_rights : List Control → (fd : Option ℕ) → Option (Option ℕ)
copy_rights [] fd = some fd
copy_rights (cmsg ∷ cmsgs) fd =
    if cmsg.cmsg_type == scm_rights
    then elim (cmsg.cmsg_data) [
      | [] ↦ copy_rights cmsgs fd
      | d ∷ ds ↦ elim ds [ [] ↦ copy_rights cmsgs (some d) | e ∷ es ↦ none ]
    ]
    else copy_rights cmsgs fd

-- The two parts that the bytes are scattered to: `cmd`, which was -1, and 7 bytes of `buf`, all 0.
abbrev pub minus_one : List ℕ
minus_one = 255 ∷ 255 ∷ 255 ∷ 255 ∷ []

unfoldable pub scatter : (bytes : List ℕ) → Option WorkerCmd
scatter bytes = elim (read_u32 (overwrite (take 4 bytes) minus_one)) [
  | none ↦ none
  | some (c, _) ↦ some (record { cmd = c; msg = take 7 (drop 4 bytes) })
]

module _ {L : Type 0} where
  abbrev of_option : {A : Type 0} → Option A → Cmd L A
  of_option none s = fault
  of_option (some a) s = done (a, s)

  -- `worker_send_msg`: 0 or more descriptors go with the bytes.
  unfoldable pub worker_send_msg : (sockfd : Option ℕ) → (bytes fds : List ℕ) → Cmd L (Unit {0})
  worker_send_msg sockfd bytes fds =
      next_ok >>= λ ok. if ok then on_fd (λ f. posted f bytes fds) sockfd else pure tt

  -- `worker_recv_msg` with the buffers that `worker` gives it.
  unfoldable pub worker_recv_msg : Cmd L Notice
  worker_recv_msg = next_message >>= λ reply. elim reply [
    | message_failed errno ↦
        of_option (scatter []) >>= λ command. pure (record { command = command; fd = none })
    | message bytes controls ↦ of_option (scatter bytes) >>= λ command.
        of_option (copy_rights controls none) >>= λ fd. pure (record { command = command; fd = fd })
  ]
