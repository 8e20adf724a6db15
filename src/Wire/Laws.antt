-- ===== src/Wire/Laws.antt =====
-- What a reader finds in memory after a write.
use mathlib.Core.List.{append_assoc}
use android_usb_tether_macos.Prelude.{
  ℕ, zero, suc, ◌+◌, ◌^◌, ◌≤◌, ◌<◌, ◌≡◌, refl, ap, ◌∙◌, length-drop, drop-drop, take, drop-append,
  take-append, [], ◌∷◌, ◌++◌, length, drop, All, arith, length-append, sym, replicate,
  length-replicate,
}
use android_usb_tether_macos.Wire.{
  Bytes, IsByte, byte, le32, le32_at, be16, be16_at, be32, be32_at, write_at,
}

pub le32_at-le32 : (n : ℕ) (rest : Bytes) → n < 2 ^ 32 → le32_at (le32 n ++ rest) 0 ≡ n
le32_at-le32 n rest h = omega arith

pub be16_at-be16 : (n : ℕ) (rest : Bytes) → n < 2 ^ 16 → be16_at (be16 n ++ rest) 0 ≡ n
be16_at-be16 n rest h = omega arith

pub be32_at-be32 : (n : ℕ) (rest : Bytes) → n < 2 ^ 32 → be32_at (be32 n ++ rest) 0 ≡ n
be32_at-be32 n rest h = omega arith

pub byte_lt : (m : Bytes) (i : ℕ) → All IsByte m → byte m i < 256
byte_lt [] i h = omega arith
byte_lt (b ∷ bs) zero h = h.0
byte_lt (b ∷ bs) (suc i) h = byte_lt bs i h.1

pub le32_at_lt : (m : Bytes) (i : ℕ) → All IsByte m → le32_at m i < 2 ^ 32
le32_at_lt m i h =
    omega (arith, byte_lt m i h, byte_lt m (i + 1) h, byte_lt m (i + 2) h, byte_lt m (i + 3) h)

pub be16_at_lt : (m : Bytes) (i : ℕ) → All IsByte m → be16_at m i < 2 ^ 16
be16_at_lt m i h = omega (arith, byte_lt m i h, byte_lt m (i + 1) h)

-- A pointer further on reads the same bytes at smaller indices.
pub byte-drop : (k i : ℕ) (m : Bytes) → byte (drop k m) i ≡ byte m (k + i)
byte-drop zero i m = let e : 0 + i ≡ i = omega arith in rw e
byte-drop (suc k) i [] = refl
byte-drop (suc k) i (b ∷ bs) =
    let e : suc k + i ≡ suc (k + i) = omega arith in rw e (byte-drop k i bs)

pub byte-append_left : (xs ys : Bytes) (i : ℕ) → i < length xs → byte (xs ++ ys) i ≡ byte xs i
byte-append_left [] ys i h = absurd (omega arith)
byte-append_left (x ∷ xs) ys zero h = refl
byte-append_left (x ∷ xs) ys (suc i) h = byte-append_left xs ys i (omega arith)

pub length-write_at : (i : ℕ) (xs buf : Bytes) → length (write_at i xs buf) ≡ length buf
unfolding write_at
length-write_at i [] buf = refl
length-write_at i (x ∷ xs) [] = refl
length-write_at zero (x ∷ xs) (b ∷ bs) = ap suc (length-write_at zero xs bs)
length-write_at (suc i) (x ∷ xs) (b ∷ bs) = ap suc (length-write_at i (x ∷ xs) bs)

-- A write that fits replaces the front of the buffer and leaves the rest.
pub write_at-front :
    (xs buf : Bytes) → length xs ≤ length buf → write_at 0 xs buf ≡ xs ++ drop (length xs) buf
unfolding write_at
write_at-front [] buf h = refl
write_at-front (x ∷ xs) [] h = absurd (omega arith)
write_at-front (x ∷ xs) (b ∷ bs) h = ap (λ t. x ∷ t) (write_at-front xs bs (omega arith))

pub write_at-append :
    (front xs back : Bytes)
    → write_at (length front) xs (front ++ back) ≡ front ++ write_at 0 xs back
unfolding write_at
write_at-append [] xs back = refl
write_at-append (f ∷ fs) [] back = refl
write_at-append (f ∷ fs) (x ∷ xs) back = ap (λ t. f ∷ t) (write_at-append fs (x ∷ xs) back)

pub length-le32 : (n : ℕ) → length (le32 n) ≡ 4
length-le32 n = refl

-- A header and a payload written one after the other stand in the buffer in that order, and what
-- was behind them is still there.
pub write_at-header :
    (n : ℕ) (header payload buf : Bytes)
    → length header ≡ n
    → n + length payload ≤ length buf
    → write_at n payload (write_at 0 header buf)
      ≡ header ++ (payload ++ drop (n + length payload) buf)
write_at-header n header payload buf e h = rw (← e) (
    rw (write_at-front header buf (omega arith)) (
      write_at-append header payload _
      ∙ ap (λ t. header ++ t)
          (write_at-front payload _ (omega (arith, length-drop (length header) buf))
            ∙ ap (λ t. payload ++ t) (drop-drop (length header) (length payload) buf))))

-- Where a header of `n` bytes, a payload and more bytes stand in a row, the payload is found behind
-- the header, and the rest behind both.
pub payload_behind_header :
    (header frame rest : Bytes) (n : ℕ)
    → length header ≡ n
    → (take (length frame) (drop n (header ++ (frame ++ rest))) ≡ frame)
      × (drop (n + length frame) (header ++ (frame ++ rest)) ≡ rest)
payload_behind_header header frame rest n e =
    rw (← e, ← drop-drop, drop-append header (frame ++ rest))
      (take-append frame rest, drop-append frame rest)

-- The buffer `m` holds `front` and behind it what `buf` had there.
abbrev pub Holds : Bytes → Bytes → Bytes → Type 0
Holds m front buf = m ≡ front ++ drop (length front) buf

pub Holds-nothing : (buf : Bytes) → Holds buf [] buf
Holds-nothing buf = refl

-- A write just behind what a buffer holds extends it.
pub Holds-write_at :
    (n : ℕ) (xs m front buf : Bytes)
    → length front ≡ n
    → n + length xs ≤ length buf
    → Holds m front buf
    → Holds (write_at n xs m) (front ++ xs) buf
Holds-write_at n xs m front buf e h p =
    rw
      (
        p,
        ← e,
        write_at-append front xs (drop (length front) buf),
        write_at-front xs (drop (length front) buf) (omega (arith, length-drop (length front) buf)),
        drop-drop,
        length-append,
      )
      (sym (append_assoc front xs _))

-- A read behind `front`.
pub byte-append_right :
    (front back : Bytes) (n i : ℕ) → length front ≡ n → byte (front ++ back) (n + i) ≡ byte back i
byte-append_right front back n i e =
    rw (← e, ← byte-drop (length front) i (front ++ back), drop-append front back)

pub be16_at-append :
    (front back : Bytes) (n : ℕ) → length front ≡ n → be16_at (front ++ back) n ≡ be16_at back 0
be16_at-append front back n e =
    let zeroth : n + 0 ≡ n = omega arith in
    let hi : byte (front ++ back) n ≡ byte back 0 =
      rw zeroth at (byte-append_right front back n 0 e) in
    let lo : byte (front ++ back) (n + 1) ≡ byte back (0 + 1) =
      byte-append_right front back n 1 e in
    omega (arith, hi, lo)

-- A packet is its first four bytes, read and written as a number, and the rest.
pub be32-be32_at : (m : Bytes) → All IsByte m → 4 ≤ length m → be32 (be32_at m 0) ++ drop 4 m ≡ m
be32-be32_at [] h k = absurd (omega arith)
be32-be32_at (a ∷ []) h k = absurd (omega arith)
be32-be32_at (a ∷ b ∷ []) h k = absurd (omega arith)
be32-be32_at (a ∷ b ∷ c ∷ []) h k = absurd (omega arith)
be32-be32_at (a ∷ b ∷ c ∷ d ∷ rest) h k = ground arith

drop-write_at :
    (k : ℕ) (xs buf : Bytes)
    → length xs ≡ k
    → k ≤ length buf
    → drop k (write_at 0 xs buf) ≡ drop k buf
drop-write_at k xs buf e h =
    rw (write_at-front xs buf (omega arith), ← e) (drop-append xs (drop (length xs) buf))

-- A header and a payload written over cleared memory.
pub write_at-cleared :
    (n k : ℕ) (header payload buf : Bytes)
    → length header ≡ n
    → n + length payload ≡ k
    → k ≤ length buf
    → write_at n payload (write_at 0 header (write_at 0 (replicate k 0) buf))
      ≡ (header ++ payload) ++ drop k buf
write_at-cleared n k header payload buf e f h =
    let zeros : Bytes = replicate k 0 in
    write_at-header n header payload (write_at 0 zeros buf) e
      (omega (arith, length-write_at 0 zeros buf))
    ∙ rw (f, drop-write_at k zeros buf (length-replicate k 0) h)
        (sym (append_assoc header payload (drop k buf)))

pub le32_at-append_left :
    (xs ys : Bytes) (i : ℕ) → i + 4 ≤ length xs → le32_at (xs ++ ys) i ≡ le32_at xs i
le32_at-append_left xs ys i h = omega (
  arith,
  byte-append_left xs ys i (omega arith),
  byte-append_left xs ys (i + 1) (omega arith),
  byte-append_left xs ys (i + 2) (omega arith),
  byte-append_left xs ys (i + 3) (omega arith),
)

pub drop-append_left : (k : ℕ) (xs ys : Bytes) → k ≤ length xs → drop k (xs ++ ys) ≡ drop k xs ++ ys
drop-append_left zero xs ys h = refl
drop-append_left (suc k) [] ys h = absurd (omega arith)
drop-append_left (suc k) (x ∷ xs) ys h = drop-append_left k xs ys (omega arith)
