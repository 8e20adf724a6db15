-- ===== src/Bridge/Receive/Pool/Freeing.antt =====
-- `usb_to_tun` of src/main.c gives back what it took, and counts what it submitted.
use android_usb_tether_macos.Ipc.{inc}
use android_usb_tether_macos.Bridge.Receive.Pool.{
  took_buf, gave_buf, took_xfer, gave_xfer, submitted_rx, cancelled_rx, RxCall, cancel_rx,
  start_one, start_rx, RxXfer, RxAttempt, usb_to_tun, RxFlags, free_rx, EventRound,
}
use android_usb_tether_macos.Prelude.{
  ℕ, ◌∷◌, [], ◌++◌, Bool, true, false, ◌+◌, ◌≡◌, refl, ℤ, List, arith, suc, ◌∙◌, if◌then◌else◌,
  Bool-cases, ap, inl, zero, sym, inr,
}

abbrev pub bufs_taken : RxCall → ℕ
bufs_taken took_buf = 1
bufs_taken _ = 0

abbrev pub bufs_given : RxCall → ℕ
bufs_given gave_buf = 1
bufs_given _ = 0

abbrev pub xfers_taken : RxCall → ℕ
xfers_taken took_xfer = 1
xfers_taken _ = 0

abbrev pub xfers_given : RxCall → ℕ
xfers_given gave_xfer = 1
xfers_given _ = 0

abbrev pub submits : RxCall → ℕ
submits submitted_rx = 1
submits _ = 0

abbrev pub weigh : (RxCall → ℕ) → List RxCall → ℕ
weigh f [] = 0
weigh f (c ∷ cs) = f c + weigh f cs

weigh-append : (f : RxCall → ℕ) (cs ds : List RxCall) → weigh f (cs ++ ds) ≡ weigh f cs + weigh f ds
weigh-append f [] ds = omega arith
weigh-append f (c ∷ cs) ds = omega (arith, weigh-append f cs ds)

abbrev set_bufs : List RxXfer → ℕ
set_bufs [] = 0
set_bufs (x ∷ xs) = (if x.buf then 1 else 0) + set_bufs xs

abbrev set_xfers : List RxXfer → ℕ
set_xfers [] = 0
set_xfers (x ∷ xs) = (if x.xfer then 1 else 0) + set_xfers xs

abbrev plus : ℤ → ℕ → ℤ
plus n zero = n
plus n (suc k) = plus (inc n) k

-- What is taken at first is given back at once or stands in the pool.
record Started (active_rx : ℤ) (r : List RxXfer × List RxCall × ℤ) : Type 0 where
  bufs_eq : weigh bufs_taken r.1 ≡ weigh bufs_given r.1 + set_bufs r.0
  xfers_eq : weigh xfers_taken r.1 ≡ weigh xfers_given r.1 + set_xfers r.0
  active_eq : r.2 ≡ plus active_rx (weigh submits r.1)

record StartedOne (active_rx : ℤ) (r : RxXfer × List RxCall × ℤ) : Type 0 where
  bufs_eq : weigh bufs_taken r.1 ≡ weigh bufs_given r.1 + (if r.0.buf then 1 else 0)
  xfers_eq : weigh xfers_taken r.1 ≡ weigh xfers_given r.1 + (if r.0.xfer then 1 else 0)
  active_eq : r.2 ≡ plus active_rx (weigh submits r.1)

started_one :
    (b x s : Bool) (n : ℤ)
    → StartedOne n (start_one (record { buf_ok = b; xfer_ok = x; submit_ok = s }) n)
unfolding start_one
started_one true true true n = record { bufs_eq = refl; xfers_eq = refl; active_eq = refl }
started_one true true false n = record { bufs_eq = refl; xfers_eq = refl; active_eq = refl }
started_one true false s n = record { bufs_eq = refl; xfers_eq = refl; active_eq = refl }
started_one false true s n = record { bufs_eq = refl; xfers_eq = refl; active_eq = refl }
started_one false false s n = record { bufs_eq = refl; xfers_eq = refl; active_eq = refl }

plus-plus : (n : ℤ) (j k : ℕ) → plus (plus n j) k ≡ plus n (j + k)
plus-plus n zero k = let e : 0 + k ≡ k = omega arith in rw e refl
plus-plus n (suc j) k =
    let e : suc j + k ≡ suc (j + k) = omega arith in rw e (plus-plus (inc n) j k)

start_rx-Started : (attempts : List RxAttempt) (n : ℤ) → Started n (start_rx attempts n)
unfolding start_rx
start_rx-Started [] n = record { bufs_eq = refl; xfers_eq = refl; active_eq = refl }
start_rx-Started (a ∷ rest) n =
    let one = start_one a n in
    let h = started_one a.buf_ok a.xfer_ok a.submit_ok n in
    let k = start_rx-Started rest one.2 in
    let more = (start_rx rest one.2).1 in
    record {
      bufs_eq = omega (
        arith,
        weigh-append bufs_taken one.1 more,
        weigh-append bufs_given one.1 more,
        h.bufs_eq,
        k.bufs_eq,
      );
      xfers_eq = omega (
        arith,
        weigh-append xfers_taken one.1 more,
        weigh-append xfers_given one.1 more,
        h.xfers_eq,
        k.xfers_eq,
      );
      active_eq =
          k.active_eq
          ∙ ap (λ t. plus t (weigh submits more)) h.active_eq
          ∙ plus-plus n (weigh submits one.1) (weigh submits more)
          ∙ ap (plus n) (sym (weigh-append submits one.1 more));
    }

-- What the end of the thread gives back.
cancel_rx-nothing :
    (f : RxCall → ℕ) (pool : List RxXfer) → f cancelled_rx ≡ 0 → weigh f (cancel_rx pool) ≡ 0
unfolding cancel_rx
cancel_rx-nothing f [] e = refl
cancel_rx-nothing f (x ∷ xs) e = elim (Bool-cases x.xfer) [
  | inl g ↦ rw g (omega (arith, e, cancel_rx-nothing f xs e))
  | inr g ↦ rw g (cancel_rx-nothing f xs e)
]

-- The calls of `free_rx` for one entry.
free_one : (f : RxCall → ℕ) (x : RxXfer) → ℕ
free_one f x = (if x.xfer then f gave_xfer else 0) + (if x.buf then f gave_buf else 0)

free_rx-one :
    (f : RxCall → ℕ) (x : RxXfer) (xs : List RxXfer)
    → weigh f (free_rx (x ∷ xs)) ≡ free_one f x + weigh f (free_rx xs)
unfolding free_rx free_one
free_rx-one f x xs = elim (Bool-cases x.xfer) [
  | inl g ↦ elim (Bool-cases x.buf) [
    | inl h ↦ rw (g, h) (omega arith)
    | inr h ↦ rw (g, h) (omega arith)
  ]
  | inr g ↦ elim (Bool-cases x.buf) [
    | inl h ↦ rw (g, h) (omega arith)
    | inr h ↦ rw (g, h) (omega arith)
  ]
]

free_rx_bufs :
    (pool : List RxXfer)
    → (weigh bufs_given (free_rx pool) ≡ set_bufs pool) × (weigh bufs_taken (free_rx pool) ≡ 0)
unfolding free_rx free_one
free_rx_bufs [] = (refl, refl)
free_rx_bufs (x ∷ xs) =
    let (given, taken) = free_rx_bufs xs in
    (free_rx-one bufs_given x xs ∙ ground arith, free_rx-one bufs_taken x xs ∙ ground arith)

free_rx_xfers :
    (pool : List RxXfer)
    → (weigh xfers_given (free_rx pool) ≡ set_xfers pool) × (weigh xfers_taken (free_rx pool) ≡ 0)
unfolding free_rx free_one
free_rx_xfers [] = (refl, refl)
free_rx_xfers (x ∷ xs) =
    let (given, taken) = free_rx_xfers xs in
    (free_rx-one xfers_given x xs ∙ ground arith, free_rx-one xfers_taken x xs ∙ ground arith)

-- As many buffers and transfers are given back as were taken, and the bridge is down.
pub record Freed (r : List RxCall × RxFlags) : Type 0 where
  pub bufs_eq : weigh bufs_taken r.0 ≡ weigh bufs_given r.0
  pub xfers_eq : weigh xfers_taken r.0 ≡ weigh xfers_given r.0
  pub running_eq : r.1.running ≡ false

-- The receive thread frees every buffer and transfer that it allocated, exactly as often, whichever allocations
-- and submissions fail and whatever its event loop meets, and it ends with the bridge marked as down.
pub usb_to_tun-Freed :
    (attempts : List RxAttempt) (rounds : List EventRound) (f : RxFlags)
    → Freed (usb_to_tun attempts rounds f)
unfolding usb_to_tun
usb_to_tun-Freed attempts rounds f =
    let r = start_rx attempts f.active_rx in
    let k = start_rx-Started attempts f.active_rx in
    let sums : (g : RxCall → ℕ)
        → weigh g (r.1 ++ (cancel_rx r.0 ++ free_rx r.0))
          ≡ weigh g r.1 + (weigh g (cancel_rx r.0) + weigh g (free_rx r.0)) =
      λ g.
        weigh-append g r.1 (cancel_rx r.0 ++ free_rx r.0)
        ∙ ap (λ t. weigh g r.1 + t) (weigh-append g (cancel_rx r.0) (free_rx r.0)) in
    let b = free_rx_bufs r.0 in
    let x = free_rx_xfers r.0 in
    record {
      bufs_eq = omega (
        arith,
        sums bufs_taken,
        sums bufs_given,
        k.bufs_eq,
        b.0,
        b.1,
        cancel_rx-nothing bufs_taken r.0 refl,
        cancel_rx-nothing bufs_given r.0 refl,
      );
      xfers_eq = omega (
        arith,
        sums xfers_taken,
        sums xfers_given,
        k.xfers_eq,
        x.0,
        x.1,
        cancel_rx-nothing xfers_taken r.0 refl,
        cancel_rx-nothing xfers_given r.0 refl,
      );
      running_eq = refl;
    }
