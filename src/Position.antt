-- ===== src/Position.antt =====
-- The opaque delivery position: encodePosition and decodePosition of
-- reference-client/internal/testrouter/streams.go. A text is the list of its ASCII codes.
pub mod Base64
use Prim.Native.Nat.{bit_xor}
use masterdata_sync_working.Prelude.{
  ℕ, zero, suc, ◌+◌, ◌-◌, ◌*◌, ◌/◌, ◌%◌, ◌^◌, Bool, true, false, Option, none, some, List, [], ◌∷◌,
  ◌++◌, ◌==◌, if◌then◌else◌,
}
use Base64.{encode, decode}

-- The bytes of a 64-bit number, binary.BigEndian.PutUint64.
unfoldable pub put_uint64 : ℕ → List ℕ
put_uint64 x =
    (x / 2 ^ 56) % 256
    ∷ (x / 2 ^ 48) % 256
    ∷ (x / 2 ^ 40) % 256
    ∷ (x / 2 ^ 32) % 256
    ∷ (x / 2 ^ 24) % 256
    ∷ (x / 2 ^ 16) % 256
    ∷ (x / 2 ^ 8) % 256
    ∷ x % 256
    ∷ []

-- binary.BigEndian.Uint64 of exactly eight bytes, `none` for any other number of them.
unfoldable pub uint64 : List ℕ → Option ℕ
uint64 (a ∷ b ∷ c ∷ d ∷ e ∷ f ∷ g ∷ h ∷ []) =
    some
      (a * 2 ^ 56 + b * 2 ^ 48 + c * 2 ^ 40 + d * 2 ^ 32 + e * 2 ^ 24 + f * 2 ^ 16 + g * 2 ^ 8 + h)
uint64 _ = none

abbrev pub mask : ℕ
mask = 0x5a5a5a5a5a5a5a5a

unfoldable pub encode_position : ℕ → List ℕ
encode_position seq = b'v' ∷ b'1' ∷ b'.' ∷ encode (put_uint64 (bit_xor seq mask))

-- strings.CutPrefix with "v1."
unfoldable pub cut_prefix : List ℕ → Option (List ℕ)
cut_prefix (a ∷ b ∷ c ∷ rest) =
    if a == b'v'
    then (if b == b'1' then (if c == b'.' then some rest else none) else none)
    else none
cut_prefix _ = none

unmask : Option ℕ → Option ℕ
unmask none = none
unmask (some x) = some (bit_xor x mask)

read_bytes : Option (List ℕ) → Option ℕ
unfolding unmask uint64
read_bytes none = none
read_bytes (some bytes) = unmask (uint64 bytes)

unfoldable pub decode_position : List ℕ → Option ℕ
unfolding cut_prefix read_bytes
decode_position id = elim (cut_prefix id) [ none ↦ none | some raw ↦ read_bytes (decode raw) ]
