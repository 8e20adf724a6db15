-- ===== src/Dhcp/Checksum.antt =====
-- src/dhcp.c: the IPv4 header (`struct ip`) and its checksum loop, which both builders repeat. The fields
-- are numbers in the order of the header; 16-bit fields are what `ntohs` gives.
use android_usb_tether_macos.Wire.{Bytes, be16, be16_at, le32}
use mathlib.Core.Option
use android_usb_tether_macos.Prelude.{
  ℕ, ◌<◌, Option, ◌∷◌, ◌^◌, suc, none, ◌%◌, drop, ◌≡◌, ◌-◌, ◌++◌, some, ◌+◌, ◌/◌, zero,
  if◌then◌else◌, ◌==◌, ◌≤◌, ◌*◌, arith, dec_lt, ◌∙◌, [],
}

pub record IpHdr : Type 0 where
  pub version_ihl : ℕ
  pub ip_tos : ℕ
  pub ip_len : ℕ
  pub ip_id : ℕ
  pub ip_off : ℕ
  pub ip_ttl : ℕ
  pub ip_p : ℕ
  pub ip_sum : ℕ
  pub ip_src : ℕ
  pub ip_dst : ℕ

abbrev pub encode_ip_hdr : IpHdr → Bytes
encode_ip_hdr h =
    h.version_ihl
    ∷ h.ip_tos
    ∷ (be16 h.ip_len
        ++ (be16 h.ip_id
            ++ (be16 h.ip_off
                ++ (h.ip_ttl ∷ h.ip_p ∷ (be16 h.ip_sum ++ (le32 h.ip_src ++ le32 h.ip_dst))))))

-- `for (i = 0; i < n; i++) sum += ntohs(p[i]);` over the words that are left.
unfoldable pub sum_words : ℕ → Bytes → ℕ → ℕ
sum_words zero m sum = sum
sum_words (suc n) m sum = sum_words n (drop 2 m) ((sum + be16_at m 0) % 2 ^ 32)

-- `while (sum >> 16) sum = (sum & 0xFFFF) + (sum >> 16);` The mask is the remainder by 2 ^ 16.
unfoldable pub fold_carry : ℕ → ℕ → Option ℕ
fold_carry zero sum = none
fold_carry (suc fuel) sum =
    let rest = fold_carry fuel (sum % 2 ^ 16 + sum / 2 ^ 16) in
    if sum / 2 ^ 16 == 0 then some sum else rest

-- The folded sum of the ten words: three rounds and the last test are enough for a 32-bit sum.
unfoldable pub header_sum : Bytes → Option ℕ
header_sum iph = fold_carry 4 (sum_words 10 iph 0)

-- `(uint16_t)~sum`.
unfoldable pub ip_checksum : Bytes → Option ℕ
ip_checksum iph = Option.map (λ sum. 2 ^ 16 - 1 - sum % 2 ^ 16) (header_sum iph)

-- One round of the folding loop.
abbrev fold_once : ℕ → ℕ
fold_once sum = sum % 2 ^ 16 + sum / 2 ^ 16

fold_carry-done : (fuel sum : ℕ) → sum < 2 ^ 16 → fold_carry (suc fuel) sum ≡ some sum
unfolding fold_carry
fold_carry-done fuel sum h = ground arith

fold_carry-again :
    (fuel sum : ℕ) → 2 ^ 16 ≤ sum → fold_carry (suc fuel) sum ≡ fold_carry fuel (fold_once sum)
unfolding fold_carry
fold_carry-again fuel sum h = ground arith

-- What the loop makes of a sum: 16 bits that differ from it by a multiple of 65535, and 0 only for 0.
record Folded (sum out : ℕ) : Type 0 where
  short : out < 2 ^ 16
  carries : ℕ
  same : sum ≡ out + 65535 * carries
  nonzero : 0 < sum → 0 < out

fold_carry_total :
    (sum : ℕ) → sum < 2 ^ 32 → (out : ℕ) × (fold_carry 4 sum ≡ some out) × Folded sum out
fold_carry_total sum h = elim (dec_lt sum (2 ^ 16)) [
  | yes p ↦ (
    sum,
    fold_carry-done 3 sum p,
    record { short = p; carries = 0; same = omega arith; nonzero = λ q. q },
  )
  | no p ↦ elim (dec_lt (fold_once sum) (2 ^ 16)) [
    | yes q ↦ (
      fold_once sum,
      fold_carry-again 3 sum (omega arith) ∙ fold_carry-done 2 (fold_once sum) q,
      record { short = q; carries = sum / 2 ^ 16; same = omega arith; nonzero = λ _. omega arith },
    )
    | no q ↦ (
      fold_once (fold_once sum),
      fold_carry-again 3 sum (omega arith)
          ∙ (fold_carry-again 2 (fold_once sum) (omega arith)
              ∙ fold_carry-done 1 (fold_once (fold_once sum)) (omega arith)),
      record {
        short = omega arith;
        carries = sum / 2 ^ 16 + fold_once sum / 2 ^ 16;
        same = omega arith;
        nonzero = λ _. omega arith;
      },
    )
  ]
]

-- The sum of the 16-bit words of a text, the high byte first, as a receiver adds them up.
abbrev pub total_of_words : Bytes → ℕ
total_of_words [] = 0
total_of_words (a ∷ []) = 256 * a
total_of_words (a ∷ b ∷ bs) = 256 * a + b + total_of_words bs

-- Every field of the header is in the range of its width.
pub record InRange (h : IpHdr) : Type 0 where
  pub r0 : h.version_ihl < 256
  pub r1 : h.ip_tos < 256
  pub r2 : h.ip_len < 2 ^ 16
  pub r3 : h.ip_id < 2 ^ 16
  pub r4 : h.ip_off < 2 ^ 16
  pub r5 : h.ip_ttl < 256
  pub r6 : h.ip_p < 256
  pub r7 : h.ip_sum < 2 ^ 16
  pub r8 : h.ip_src < 2 ^ 32
  pub r9 : h.ip_dst < 2 ^ 32

abbrev swapped : ℕ → ℕ
swapped w = w % 256 * 256 + w / 256 % 256

-- The words of the header, checksum and all.
abbrev word_sum : IpHdr → ℕ
word_sum h =
    h.version_ihl * 256
    + h.ip_tos
    + h.ip_len
    + h.ip_id
    + h.ip_off
    + (h.ip_ttl * 256 + h.ip_p)
    + h.ip_sum
    + swapped h.ip_src
    + swapped (h.ip_src / 2 ^ 16)
    + swapped h.ip_dst
    + swapped (h.ip_dst / 2 ^ 16)

sum_words-encode :
    (h : IpHdr) (rest : Bytes) → InRange h → sum_words 10 (encode_ip_hdr h ++ rest) 0 ≡ word_sum h
unfolding sum_words
sum_words-encode h rest r = omega arith

total_of_words-encode : (h : IpHdr) → InRange h → total_of_words (encode_ip_hdr h) ≡ word_sum h
total_of_words-encode h r = omega arith

all_ones :
    (sum out out' : ℕ)
    → 0 < sum
    → Folded sum out
    → Folded (sum + (2 ^ 16 - 1 - out)) out'
    → out' ≡ 0xFFFF
all_ones sum out out' h f f' = omega (arith, f.same, f'.same, f.short, f'.short, f'.nonzero)

with_sum-InRange : (h : IpHdr) (c : ℕ) → InRange h → c < 2 ^ 16 → InRange (record h { ip_sum = c })
with_sum-InRange h c r k = omega arith

word_sum_with :
    (h : IpHdr) (c : ℕ) → h.ip_sum ≡ 0 → word_sum (record h { ip_sum = c }) ≡ word_sum h + c
word_sum_with h c e = omega arith

word_sum_range :
    (h : IpHdr) → InRange h → 0 < h.version_ihl → (0 < word_sum h) × (word_sum h < 2 ^ 31)
word_sum_range h r v = omega arith

verifies_with :
    (h : IpHdr) (rest : Bytes) (out out' : ℕ)
    → InRange h
    → h.ip_sum ≡ 0
    → 0 < word_sum h
    → fold_carry 4 (word_sum h) ≡ some out
    → Folded (word_sum h) out
    → fold_carry 4 (word_sum h + (2 ^ 16 - 1 - out)) ≡ some out'
    → Folded (word_sum h + (2 ^ 16 - 1 - out)) out'
    → (c : ℕ) × (ip_checksum (encode_ip_hdr h ++ rest) ≡ some c)
      × (c < 2 ^ 16)
      × (total_of_words (encode_ip_hdr (record h { ip_sum = c })) % 0xFFFF ≡ 0)
      × (0 < total_of_words (encode_ip_hdr (record h { ip_sum = c })))
      × (header_sum (encode_ip_hdr (record h { ip_sum = c }) ++ rest) ≡ some 0xFFFF)
unfolding ip_checksum header_sum
verifies_with h rest out out' r zero_sum some_bits e f e' f' =
    let c : ℕ = 2 ^ 16 - 1 - out in
    let cut : out % 2 ^ 16 ≡ out = omega (arith, f.short) in
    let total =
      total_of_words-encode (record h { ip_sum = c }) (with_sum-InRange h c r (omega arith)) in
    (
      c,
      rw (sum_words-encode h rest r, e, cut),
      omega arith,
      rw (total, word_sum_with h c zero_sum) (omega (arith, f.same, f.short)),
      rw (total, word_sum_with h c zero_sum) (omega (arith, some_bits)),
      rw (
        sum_words-encode (record h { ip_sum = c }) rest (with_sum-InRange h c r (omega arith)),
        word_sum_with h c zero_sum,
        e',
        all_ones (word_sum h) out out' some_bits f f',
      ),
    )

-- The checksum is the one that a receiver wants to see. With the computed number stored in a header whose
-- checksum field was 0, its ten words add up to a multiple of 65535 other than 0, which is the number
-- 0 of the one's complement; so does the same loop over the header come to 0xFFFF. The loop of the code ends.
pub ip_checksum_verifies :
    (h : IpHdr) (rest : Bytes)
    → InRange h
    → h.ip_sum ≡ 0
    → 0 < h.version_ihl
    → (c : ℕ) × (ip_checksum (encode_ip_hdr h ++ rest) ≡ some c)
      × (c < 2 ^ 16)
      × (total_of_words (encode_ip_hdr (record h { ip_sum = c })) % 0xFFFF ≡ 0)
      × (0 < total_of_words (encode_ip_hdr (record h { ip_sum = c })))
      × (header_sum (encode_ip_hdr (record h { ip_sum = c }) ++ rest) ≡ some 0xFFFF)
ip_checksum_verifies h rest r zero_sum version =
    let (some_bits, fits) = word_sum_range h r version in
    let (out, e, f) = fold_carry_total (word_sum h) (omega arith) in
    let (out', e', f') = fold_carry_total (word_sum h + (2 ^ 16 - 1 - out)) (omega arith) in
    verifies_with h rest out out' r zero_sum some_bits e f e' f'
