-- ===== src/Checker/Buffers.antt =====
-- What the clients of 04-24_UNIX异步IO机制 take of the options, and `alloc_buffer` of nwchecker.c, which
-- makes their message.
use imooc_sock_core_tech.Prelude.{
  ℕ, zero, suc, Bool, Option, none, some, List, [], ◌∷◌, ◌++◌, leb, take, if◌then◌else◌,
}
use imooc_sock_core_tech.Prelude.Int.{ℤ, pos, negsuc}

-- `alloc_buffer`: short buffers hold the beginning of "ping" with a 0 at their end, longer ones what
-- `malloc` left. `none`: the 0 would be written in front of the buffer.
unfoldable pub alloc_buffer : (junk : List ℕ) (alloc_size : ℕ) → Option (List ℕ)
alloc_buffer junk zero = none
alloc_buffer junk (suc n) =
    if leb (suc n) 5
    then some (take n (b'p' ∷ b'i' ∷ b'n' ∷ b'g' ∷ []) ++ 0 ∷ [])
    else some (take (suc n) junk)

-- The members of `struct nwc_args` that the client reads, but the server's address.
pub record ClientArgs : Type 0 where
  pub message_size : ℤ
  pub interval : ℤ
  pub sent_pkgs : ℤ
  pub count : ℤ
  pub no_close : Bool

-- The number, or what stands for it where it is not positive.
abbrev pub positive_or : (default : ℕ) → ℤ → ℕ
positive_or default (pos zero) = default
positive_or default (pos (suc n)) = suc n
positive_or default (negsuc n) = default
