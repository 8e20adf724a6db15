-- ===== src/Wire.antt =====
-- Memory as the C code sees it: a buffer is the list of its bytes, and a pointer into it is the
-- rest of the list from there. The host is little-endian (x86_64 and arm64), so an integer field
-- of a packed struct is stored low byte first, and `htons`, `htonl` and their inverses swap.
pub mod Laws
use android_usb_tether_macos.Prelude.{
  ℕ, zero, suc, ◌+◌, ◌*◌, ◌/◌, ◌%◌, ◌^◌, ◌<◌, List, [], ◌∷◌, ◌++◌, get_or,
}

abbrev pub Bytes : Type 0
Bytes = List ℕ

abbrev pub IsByte : ℕ → Type 0
IsByte b = b < 256

-- A read past the end of the memory has no meaning in C; the model reads 0 there.
abbrev pub byte : Bytes → ℕ → ℕ
byte m i = get_or m i 0

-- The bytes of a host-order `uint32_t`, and of network-order `uint16_t` and `uint32_t` fields.
abbrev pub le32 : ℕ → Bytes
le32 n = n % 256 ∷ n / 2 ^ 8 % 256 ∷ n / 2 ^ 16 % 256 ∷ n / 2 ^ 24 % 256 ∷ []

abbrev pub be16 : ℕ → Bytes
be16 n = n / 2 ^ 8 % 256 ∷ n % 256 ∷ []

abbrev pub be32 : ℕ → Bytes
be32 n = n / 2 ^ 24 % 256 ∷ n / 2 ^ 16 % 256 ∷ n / 2 ^ 8 % 256 ∷ n % 256 ∷ []

abbrev pub le32_at : Bytes → ℕ → ℕ
le32_at m i = byte m i + 2 ^ 8 * byte m (i + 1) + 2 ^ 16 * byte m (i + 2) + 2 ^ 24 * byte m (i + 3)

abbrev pub be16_at : Bytes → ℕ → ℕ
be16_at m i = 2 ^ 8 * byte m i + byte m (i + 1)

abbrev pub be32_at : Bytes → ℕ → ℕ
be32_at m i = 2 ^ 24 * byte m i + 2 ^ 16 * byte m (i + 1) + 2 ^ 8 * byte m (i + 2) + byte m (i + 3)

-- `memcpy(buf + i, src, n)` for the `n` bytes `src`; nothing is stored past the end of `buf`.
unfoldable pub write_at : ℕ → Bytes → Bytes → Bytes
write_at i [] buf = buf
write_at i (x ∷ xs) [] = []
write_at zero (x ∷ xs) (b ∷ bs) = x ∷ write_at zero xs bs
write_at (suc i) (x ∷ xs) (b ∷ bs) = b ∷ write_at i (x ∷ xs) bs
