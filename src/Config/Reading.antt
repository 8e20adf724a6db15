-- ===== src/Config/Reading.antt =====
-- What `config_load_file` reads from a line that is written as `key = value`.
use android_usb_tether_macos.Config.File.{
  split_at_byte, load_line, set_key, stripped_line, key_line,
}
use android_usb_tether_macos.Ipc.{c_string}
use android_usb_tether_macos.Config.{isspace, trim_end, skip_space, strip, TetherConfig}
use android_usb_tether_macos.Wire.{Bytes}
use android_usb_tether_macos.Prelude.{
  ℕ, [], ◌∷◌, some, true, false, ◌≢◌, All, ◌≡◌, refl, ◌++◌, if◌then◌else◌, ◌∙◌, ap, ==_of_ne, arith,
  ◌<◌, length, sym, ap₂,
}
use mathlib.Core.List.{append_assoc}

-- A byte that stands for itself: it is no NUL and no white space.
abbrev pub IsPlain : ℕ → Type 0
IsPlain b = (b ≢ 0) × (isspace b ≡ false)

-- A word that a line can hold as a key: not empty, without NUL, white space and equals sign, and not
-- beginning like a comment or a section.
abbrev pub IsKey : Bytes → Type 0
IsKey [] = ⊥
IsKey (b ∷ bs) = (b ≢ 35) × (b ≢ 59) × (b ≢ 91) × All (λ x. IsPlain x × (x ≢ 61)) (b ∷ bs)

skip_space-plain : (b : ℕ) (bs : Bytes) → isspace b ≡ false → skip_space (b ∷ bs) ≡ b ∷ bs
skip_space-plain b bs h = rw h refl

abbrev keep_first : ℕ → Bytes → Bytes
keep_first b rest = elim rest [ [] ↦ if isspace b then [] else b ∷ [] | x ∷ xs ↦ b ∷ x ∷ xs ]

trim_end-next :
    (b : ℕ) (bs rest : Bytes) → trim_end bs ≡ rest → trim_end (b ∷ bs) ≡ keep_first b rest
trim_end-next b bs rest e = ap (λ r. keep_first b r) e

keep_first-plain : (b : ℕ) (rest : Bytes) → isspace b ≡ false → keep_first b rest ≡ b ∷ rest
keep_first-plain b [] h = rw h refl
keep_first-plain b (x ∷ xs) h = refl

-- White space behind a word goes.
trim_end-word :
    (word : Bytes) (c : ℕ)
    → All IsPlain word
    → isspace c ≡ true
    → trim_end (word ++ (c ∷ [])) ≡ word
trim_end-word [] c h e = rw e refl
trim_end-word (b ∷ word) c ((_, h), hs) e =
    trim_end-next b (word ++ (c ∷ [])) word (trim_end-word word c hs e) ∙ keep_first-plain b word h

trim_end-plain : (word : Bytes) → All IsPlain word → trim_end word ≡ word
trim_end-plain [] h = refl
trim_end-plain (b ∷ word) ((_, h), hs) =
    trim_end-next b word word (trim_end-plain word hs) ∙ keep_first-plain b word h

-- What stands before a trimmed text that is not empty stays.
trim_end-front :
    (front back : Bytes) (b : ℕ) (bs : Bytes)
    → trim_end back ≡ b ∷ bs
    → trim_end (front ++ back) ≡ front ++ (b ∷ bs)
trim_end-front [] back b bs e = e
trim_end-front (x ∷ []) back b bs e = trim_end-next x back (b ∷ bs) e
trim_end-front (x ∷ y ∷ front) back b bs e =
    trim_end-next x ((y ∷ front) ++ back) (y ∷ (front ++ (b ∷ bs)))
      (trim_end-front (y ∷ front) back b bs e)

split_at_byte-first :
    (c : ℕ) (before after : Bytes)
    → All (λ x. x ≢ c) before
    → split_at_byte c (before ++ (c ∷ after)) ≡ some (before, after)
split_at_byte-first c [] after h = ground arith
split_at_byte-first c (b ∷ before) after (h, hs) =
    rw (==_of_ne b c h, split_at_byte-first c before after hs) refl

c_string-whole : (text : Bytes) → All (λ x. x ≢ 0) text → c_string text ≡ text
c_string-whole [] h = refl
c_string-whole (b ∷ bs) (h, hs) = rw (==_of_ne b 0 h, c_string-whole bs hs) refl

pub All-append : (P : ℕ → Type 0) (xs ys : Bytes) → All P xs → All P ys → All P (xs ++ ys)
All-append P [] ys h k = k
All-append P (x ∷ xs) ys (h, hs) k = (h, All-append P xs ys hs k)

pub All-map : (P Q : ℕ → Type 0) (xs : Bytes) → ((x : ℕ) → P x → Q x) → All P xs → All Q xs
All-map P Q [] f h = tt
All-map P Q (x ∷ xs) f (h, hs) = (f x h, All-map P Q xs f hs)

-- The words of the line, stripped.
strip-key : (b : ℕ) (bs : Bytes) → All IsPlain (b ∷ bs) → strip ((b ∷ bs) ++ (32 ∷ [])) ≡ b ∷ bs
unfolding strip
strip-key b bs h =
    ap trim_end (skip_space-plain b (bs ++ (32 ∷ [])) h.0.1) ∙ trim_end-word (b ∷ bs) 32 h refl

strip-val : (v : ℕ) (vs : Bytes) → All IsPlain (v ∷ vs) → strip (32 ∷ v ∷ vs) ≡ v ∷ vs
unfolding strip
strip-val v vs h = ap trim_end (skip_space-plain v vs h.0.1) ∙ trim_end-plain (v ∷ vs) h

-- The line as it is written, and without its newline.
abbrev pub written : Bytes → Bytes → Bytes
written key val = key ++ (32 ∷ 61 ∷ 32 ∷ (val ++ (10 ∷ [])))

abbrev bare : Bytes → Bytes → Bytes
bare key val = key ++ (32 ∷ 61 ∷ 32 ∷ val)

abbrev InKey : ℕ → Type 0
InKey x = IsPlain x × (x ≢ 61)

c_string-written :
    (key val : Bytes)
    → All InKey key
    → All IsPlain val
    → c_string (written key val) ≡ written key val
c_string-written key val ks plain =
    let NonZero : ℕ → Type 0 = λ x. x ≢ 0 in
    c_string-whole (written key val) (
      All-append NonZero key (32 ∷ 61 ∷ 32 ∷ (val ++ (10 ∷ [])))
        (All-map InKey NonZero key (λ x q. q.0.0) ks)
        (
          omega arith,
          (
            omega arith,
            (
              omega arith,
              All-append NonZero val (10 ∷ []) (All-map IsPlain NonZero val (λ x q. q.0) plain)
                  (omega arith, tt),
            ),
          ),
        ))

strip-written :
    (b : ℕ) (bs : Bytes) (v : ℕ) (vs : Bytes)
    → isspace b ≡ false
    → All IsPlain (v ∷ vs)
    → strip (written (b ∷ bs) (v ∷ vs)) ≡ bare (b ∷ bs) (v ∷ vs)
unfolding strip
strip-written b bs v vs h plain =
    let key : Bytes = b ∷ bs in
    let val : Bytes = v ∷ vs in
    let equals : Bytes = 32 ∷ 61 ∷ 32 ∷ [] in
    let end : Bytes = val ++ (10 ∷ []) in
    ap trim_end
      (skip_space-plain b (bs ++ (32 ∷ 61 ∷ 32 ∷ end)) h ∙ sym (append_assoc key equals end))
    ∙ (trim_end-front (key ++ equals) end v vs (trim_end-word val 10 plain refl)
        ∙ append_assoc key equals val)

split_at_byte-bare :
    (key val : Bytes)
    → All InKey key
    → split_at_byte 61 (bare key val) ≡ some (key ++ (32 ∷ []), 32 ∷ val)
split_at_byte-bare key val ks =
    let Other : ℕ → Type 0 = λ x. x ≢ 61 in
    ap (λ t. split_at_byte 61 t) (sym (append_assoc key (32 ∷ []) (61 ∷ 32 ∷ val)))
    ∙ split_at_byte-first 61 (key ++ (32 ∷ [])) (32 ∷ val)
        (All-append Other key (32 ∷ []) (All-map InKey Other key (λ x q. q.1) ks) (omega arith, tt))

stripped_line-bare :
    (b : ℕ) (bs : Bytes) (v : ℕ) (vs section : Bytes) (cfg : TetherConfig)
    → IsKey (b ∷ bs)
    → All IsPlain (v ∷ vs)
    → stripped_line (bare (b ∷ bs) (v ∷ vs)) (section, cfg)
      ≡ (section, set_key section (b ∷ bs) (v ∷ vs) cfg)
unfolding stripped_line key_line
stripped_line-bare b bs v vs section cfg (k0, k1, k2, ks) plain =
    let key : Bytes = b ∷ bs in
    rw (==_of_ne b 35 k0, ==_of_ne b 59 k1, ==_of_ne b 91 k2)
      (ap (λ t. key_line t (section, cfg)) (split_at_byte-bare key (v ∷ vs) ks)
        ∙ ap₂ (λ k t. (section, set_key section k t cfg))
            (strip-key b bs (All-map InKey IsPlain key (λ x q. q.0) ks)) (strip-val v vs plain))

-- A line of the form `key = value` with a newline, for a key that is a word and a value that is not
-- empty, both without NUL and white space, does in any section what the key and the value say, and
-- leaves the section.
pub load_line-key :
    (key val section : Bytes) (cfg : TetherConfig)
    → IsKey key
    → 0 < length val
    → All IsPlain val
    → load_line (written key val) (section, cfg) ≡ (section, set_key section key val cfg)
unfolding load_line
load_line-key [] val section cfg k h plain = absurd k
load_line-key (b ∷ bs) [] section cfg k h plain = absurd (omega arith)
load_line-key (b ∷ bs) (v ∷ vs) section cfg k h plain =
    ap (λ t. stripped_line (strip t) (section, cfg)) (c_string-written (b ∷ bs) (v ∷ vs) k.3 plain)
    ∙ (ap (λ t. stripped_line t (section, cfg)) (strip-written b bs v vs k.3.0.0.1 plain)
        ∙ stripped_line-bare b bs v vs section cfg k plain)
