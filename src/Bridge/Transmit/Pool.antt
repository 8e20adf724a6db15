-- ===== src/Bridge/Transmit/Pool.antt =====
-- The slots of the transmit pool of src/main.c: counts over them, and what each change does to a count.
use android_usb_tether_macos.Wire.{Bytes}
use android_usb_tether_macos.Bridge.Transmit.{
  claim_free, TxXfer, At, launch, release, there, here, fresh_xfer,
}
use mathlib.Core.Path.{subst}
use android_usb_tether_macos.Prelude.{
  ℕ, ◌∷◌, [], true, false, none, some, ◌+◌, ◌≡◌, suc, inl, inr, List, Option, length, if◌then◌else◌,
  ◌≤◌, ◌⊎◌, set, Bool-cases, arith, ap, refl, All, sym, ◌∙◌, replicate, zero,
}

abbrev pub busy : TxXfer → ℕ
busy x = if x.in_use then 1 else 0

abbrev pub flies : Option Bytes → ℕ
flies none = 0
flies (some sent) = 1

abbrev pub flying : TxXfer → ℕ
flying x = flies x.in_flight

abbrev pub total : (TxXfer → ℕ) → List TxXfer → ℕ
total f [] = 0
total f (x ∷ xs) = f x + total f xs

pub total-set :
    (f : TxXfer → ℕ) {xs : List TxXfer} {i : ℕ} {x : TxXfer} (y : TxXfer)
    → At xs i x
    → total f (set xs i y) + f x ≡ total f xs + f y
total-set f y here = omega arith
total-set f y (there a) = omega (arith, total-set f y a)

pub total-le :
    (f : TxXfer → ℕ) {xs : List TxXfer} {i : ℕ} {x : TxXfer} → At xs i x → f x ≤ total f xs
total-le f here = omega arith
total-le f (there a) = omega (arith, total-le f a)

pub At-set : {xs : List TxXfer} {i : ℕ} {x : TxXfer} (y : TxXfer) → At xs i x → At (set xs i y) i y
At-set y here = At.here
At-set y (there a) = At.there (At-set y a)

-- Another slot stays, or it is the same slot.
pub At-set_other :
    {xs : List TxXfer} {i j : ℕ} {x x' : TxXfer} (y : TxXfer)
    → At xs i x
    → At xs j x'
    → (x ≡ x') ⊎ At (set xs j y) i x
At-set_other y here here = inl refl
At-set_other y here (there b) = inr At.here
At-set_other y (there a) here = inr (At.there a)
At-set_other y (there a) (there b) = elim (At-set_other y a b) [
  | inl e ↦ inl e
  | inr c ↦ inr (At.there c)
]

pub release-set :
    {xs : List TxXfer} {i : ℕ} {x : TxXfer}
    → At xs i x
    → release i xs ≡ set xs i (record x { in_use = false })
release-set here = refl
release-set (there {y = y} a) = ap (λ t. y ∷ t) (release-set a)

pub launch-set :
    {xs : List TxXfer} {i : ℕ} {x : TxXfer} (sent : Bytes)
    → At xs i x
    → launch i sent xs ≡ set xs i (record x { in_flight = some sent })
launch-set sent here = refl
launch-set sent (there {y = y} a) = ap (λ t. y ∷ t) (launch-set sent a)

pub record Claimed (xs : List TxXfer) (i : ℕ) (pool : List TxXfer) : Type 0 where
  pub slot : TxXfer
  pub at : At xs i slot
  pub was_free : slot.in_use ≡ false
  pub pool_eq : pool ≡ set xs i (record slot { in_use = true })

-- A claim takes a slot that is free and changes no other; it fails only when every slot is in use.
pub claim_free-cases :
    (xs : List TxXfer)
    → ((claim_free xs ≡ none) × (total busy xs ≡ length xs))
      ⊎ ((i : ℕ) × (pool : List TxXfer) × (claim_free xs ≡ some (i, pool)) × Claimed xs i pool)
unfolding claim_free
claim_free-cases [] = inl (refl, refl)
claim_free-cases (x ∷ xs) = elim (Bool-cases x.in_use) [
  | inr e ↦ inr (0, _, rw e refl, record { slot = x; at = At.here; was_free = e; pool_eq = refl })
  | inl e ↦ elim (claim_free-cases xs) [
    | inl (f, n) ↦ inl (rw (e, f) refl, rw e (omega (arith, n)))
    | inr (i, pool, f, c) ↦ inr (
      suc i,
      x ∷ pool,
      rw (e, f) refl,
      record {
        slot = c.slot;
        at = At.there c.at;
        was_free = c.was_free;
        pool_eq = ap (λ t. x ∷ t) c.pool_eq;
      },
    )
  ]
]

abbrev ClaimedBy : List TxXfer → Option (ℕ × List TxXfer) → Type 0
ClaimedBy xs none = Unit
ClaimedBy xs (some (i, pool)) = Claimed xs i pool

pub claim_free-Claimed :
    (xs : List TxXfer) (i : ℕ) (pool : List TxXfer)
    → claim_free xs ≡ some (i, pool)
    → Claimed xs i pool
claim_free-Claimed xs i pool e = elim (claim_free-cases xs) [
  | inl (f, _) ↦ absurd (ground (arith, e, f))
  | inr (j, pool', f, c) ↦ subst (ClaimedBy xs) (sym f ∙ e) c
]

-- libusb has only slots that are in use.
abbrev pub IsSound : TxXfer → Type 0
IsSound x = flying x ≤ busy x

pub All-set :
    {xs : List TxXfer} {i : ℕ} {x : TxXfer} (y : TxXfer)
    → At xs i x
    → IsSound y
    → All IsSound xs
    → All IsSound (set xs i y)
All-set y here p h = (p, h.1)
All-set y (there a) p h = (h.0, All-set y a p h.1)

pub All-At : {xs : List TxXfer} {i : ℕ} {x : TxXfer} → At xs i x → All IsSound xs → IsSound x
All-At here h = h.0
All-At (there a) h = All-At a h.1

pub All-replicate : (n : ℕ) → All IsSound (replicate n fresh_xfer)
All-replicate zero = tt
All-replicate (suc n) = (omega arith, All-replicate n)

flies-none : (o : Option Bytes) → flies o ≡ 0 → o ≡ none
flies-none none e = refl
flies-none (some b) e = absurd (omega (arith, e))

-- The slot that the thread has claimed: in use and not with libusb.
abbrev pub claimed_xfer : TxXfer
claimed_xfer = record { in_use = true; in_flight = none }

pub Claimed-pool :
    {xs pool : List TxXfer} {i : ℕ}
    → All IsSound xs
    → Claimed xs i pool
    → (x : TxXfer) × At xs i x × (busy x ≡ 0) × (flying x ≡ 0) × (pool ≡ set xs i claimed_xfer)
Claimed-pool {xs} {pool} {i} h c =
    let b : busy c.slot ≡ 0 = rw (c.was_free) refl in
    let f : flying c.slot ≡ 0 = omega (arith, b, All-At c.at h) in
    (
      c.slot,
      c.at,
      b,
      f,
      c.pool_eq
          ∙ ap (λ o. set xs i (record { in_use = true; in_flight = o }))
              (flies-none c.slot.in_flight f),
    )

pub total-busy_le : (xs : List TxXfer) → total busy xs ≤ length xs
total-busy_le [] = omega arith
total-busy_le (x ∷ xs) = let one : busy x ≤ 1 = ground arith in omega (arith, one, total-busy_le xs)
