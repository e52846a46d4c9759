-- ===== src/Wire.antt =====
-- The bytes of a package of nwc_qos_protocol.h (04-30_nwchecker_refactor): `struct nwc_qos_hdr` in
-- memory, four 32-bit words in the order of a little-endian host, and then the payload.
use imooc_sock_core_tech.Prelude.{
  ℕ, ◌+◌, ◌*◌, ◌/◌, ◌%◌, ◌^◌, Option, none, some, List, [], ◌∷◌, ◌++◌,
}
use imooc_sock_core_tech.Qos.{QosHdr}
pub mod Roundtrip

unfoldable pub u32_bytes : ℕ → List ℕ
u32_bytes n = (n % 256) ∷ (n / 256 % 256) ∷ (n / 65536 % 256) ∷ (n / 16777216 % 256) ∷ []

-- `(uint8_t*)pkg`
unfoldable pub encode : QosHdr → List ℕ
unfolding u32_bytes
encode pkg =
    u32_bytes pkg.timestamp
    ++ (u32_bytes pkg.ack_timestamp
        ++ (u32_bytes pkg.recv_delay ++ (u32_bytes pkg.length ++ pkg.payload)))

-- The word at a position and the bytes behind it; `none` is a read past the end.
unfoldable pub read_u32 : List ℕ → Option (ℕ × List ℕ)
read_u32 (a ∷ b ∷ c ∷ d ∷ rest) = some (a + b * 256 + c * 65536 + d * 16777216, rest)
read_u32 _ = none

-- `(struct nwc_qos_hdr*)pkg_ptr`: the header, with all bytes behind it as the payload.
unfoldable pub read_hdr : List ℕ → Option QosHdr
unfolding read_u32
read_hdr bytes = elim (read_u32 bytes) [
  | none ↦ none
  | some (timestamp, r1) ↦ elim (read_u32 r1) [
    | none ↦ none
    | some (ack, r2) ↦ elim (read_u32 r2) [
      | none ↦ none
      | some (delay, r3) ↦ elim (read_u32 r3) [
        | none ↦ none
        | some (len, r4) ↦ some (record {
          timestamp = timestamp;
          ack_timestamp = ack;
          recv_delay = delay;
          length = len;
          payload = r4;
        })
      ]
    ]
  ]
]
