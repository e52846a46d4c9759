-- ===== src/Wire/Roundtrip.antt =====
-- Reading back the bytes of a package of nwc_qos_protocol.h.
use imooc_sock_core_tech.Prelude.{
  ℕ, ◌+◌, ◌*◌, ◌/◌, ◌%◌, ◌^◌, ◌<◌, ◌≡◌, refl, some, List, [], ◌∷◌, ◌++◌, arith, length, drop,
}
use imooc_sock_core_tech.Qos.{QosHdr, qos_hdr_len}
use imooc_sock_core_tech.Wire.{encode, read_u32, read_hdr}

-- The four words fit 32 bits.
pub record Fits (pkg : QosHdr) : Type 0 where
  pub timestamp : pkg.timestamp < 2 ^ 32
  pub ack_timestamp : pkg.ack_timestamp < 2 ^ 32
  pub recv_delay : pkg.recv_delay < 2 ^ 32
  pub length : pkg.length < 2 ^ 32

word :
    (n : ℕ)
    → n < 2 ^ 32
    → n % 256 + n / 256 % 256 * 256 + n / 65536 % 256 * 65536 + n / 16777216 % 256 * 16777216 ≡ n
word n h = omega arith

-- Reading the bytes of a package whose words fit 32 bits, followed by any bytes, gives its header
-- back, and leaves its payload and those bytes behind it.
pub read_hdr-encode :
    (pkg : QosHdr) (rest : List ℕ)
    → Fits pkg
    → read_hdr (encode pkg ++ rest) ≡ some (record pkg { payload = pkg.payload ++ rest })
unfolding encode read_hdr
read_hdr-encode pkg rest h = λ i. some (record {
  timestamp = word pkg.timestamp h.timestamp i;
  ack_timestamp = word pkg.ack_timestamp h.ack_timestamp i;
  recv_delay = word pkg.recv_delay h.recv_delay i;
  length = word pkg.length h.length i;
  payload = pkg.payload ++ rest;
})

pub length-encode :
    (pkg : QosHdr) (rest : List ℕ)
    → length (encode pkg ++ rest) ≡ qos_hdr_len + length (pkg.payload ++ rest)
unfolding encode
length-encode pkg rest = omega arith

drop-length : (xs ys : List ℕ) → drop (length xs) (xs ++ ys) ≡ ys
drop-length [] ys = refl
drop-length (x ∷ xs) ys = drop-length xs ys

pub drop-encode :
    (pkg : QosHdr) (rest : List ℕ) (n : ℕ)
    → n ≡ length pkg.payload
    → drop (qos_hdr_len + n) (encode pkg ++ rest) ≡ rest
unfolding encode
drop-encode pkg rest n e =
    let whole : qos_hdr_len + n ≡ length (encode pkg) = omega arith in
    rw whole (drop-length (encode pkg) rest)

pub read_u32-encode :
    (pkg : QosHdr) (rest : List ℕ)
    → pkg.timestamp < 2 ^ 32
    → read_u32 (encode pkg ++ rest) ≡ some (pkg.timestamp, drop 4 (encode pkg ++ rest))
unfolding encode read_u32
read_u32-encode pkg rest h = λ i. some (word pkg.timestamp h i, drop 4 (encode pkg ++ rest))
