-- ===== src/Usb/Open/Held.antt =====
-- src/usb_device.c: the calls of libusb that take or give back, as an automaton.
use android_usb_tether_macos.Usb.Open.{
  opened, closed, claimed_comm, released_comm, claimed_data, released_data, detached, attached,
  initialised, exited, got_list, freed_list, got_config, freed_config, UsbCall, Finding, detaches,
}
use mathlib.Core.List.{append_assoc}
use android_usb_tether_macos.Prelude.{
  ℕ, ◌∷◌, [], ◌++◌, Bool, true, false, none, some, Option, ◌==◌, List, ◌≡◌, refl, if◌then◌else◌,
  ==_iff, sym, ◌&&◌, ◌∙◌, not,
}

-- How far a device is open.
pub data Depth : Type 0 where
  shut : Depth
  with_handle : Depth
  with_comm : ℕ → Depth
  with_both : ℕ → ℕ → Depth

-- What is held of libusb.
pub record Held : Type 0 where
  pub context : Bool
  pub list : Bool
  pub config : Bool
  pub depth : Depth

abbrev pub nothing_held : Held
nothing_held = record { context = false; list = false; config = false; depth = shut }

-- Claims and releases on the handle, in the one order that libusb allows; an interface is released under the
-- number that it was claimed under.
abbrev pub depth_after : UsbCall → Depth → Option Depth
depth_after opened shut = some with_handle
depth_after closed with_handle = some shut
depth_after (claimed_comm n) with_handle = some (with_comm n)
depth_after (released_comm n) (with_comm m) = if n == m then some with_handle else none
depth_after (claimed_data k) (with_comm n) = some (with_both n k)
depth_after (released_data k) (with_both n m) = if k == m then some (with_comm n) else none
depth_after (detached n) with_handle = some with_handle
depth_after (attached n) with_handle = some with_handle
depth_after _ _ = none

abbrev pub lift_depth : Held → Option Depth → Option Held
lift_depth h none = none
lift_depth h (some d) = some (record h { depth = d })

abbrev is_shut : Depth → Bool
is_shut shut = true
is_shut with_handle = false
is_shut (with_comm n) = false
is_shut (with_both n k) = false

-- One call, `none` where it takes what is held or gives back what is not. A device is opened while the list holds
-- it, and used within the context, which ends only when the list is freed and the handle closed.
abbrev pub held_by : UsbCall → Held → Option Held
held_by initialised h = if h.context then none else some (record h { context = true })
held_by exited h =
    if h.context && (not h.list && is_shut h.depth)
    then some (record h { context = false })
    else none
held_by got_list h = if h.context && not h.list then some (record h { list = true }) else none
held_by freed_list h = if h.list && not h.config then some (record h { list = false }) else none
held_by got_config h = if h.list && not h.config then some (record h { config = true }) else none
held_by freed_config h = if h.config then some (record h { config = false }) else none
held_by opened h = if h.context && h.list then lift_depth h (depth_after opened h.depth) else none
held_by c h = if h.context then lift_depth h (depth_after c h.depth) else none

abbrev pub held_by_all : List UsbCall → Option Held → Option Held
held_by_all calls none = none
held_by_all [] (some h) = some h
held_by_all (c ∷ calls) (some h) = held_by_all calls (held_by c h)

pub held_none : (calls : List UsbCall) → held_by_all calls none ≡ none
held_none [] = refl
held_none (c ∷ calls) = refl

pub held_by_all-append :
    (calls more : List UsbCall) (h : Option Held)
    → held_by_all (calls ++ more) h ≡ held_by_all more (held_by_all calls h)
held_by_all-append [] more none = refl
held_by_all-append [] more (some h) = refl
held_by_all-append (c ∷ calls) more none = sym (held_none more)
held_by_all-append (c ∷ calls) more (some h) = held_by_all-append calls more (held_by c h)

-- The context and the list, as they are held around each round, and the device at some depth.
abbrev pub in_loop : Bool → Depth → Held
in_loop config depth = record { context = true; list = true; config = config; depth = depth }

pub same_number : (n : ℕ) → (n == n) ≡ true
same_number n = (==_iff n n).1 refl

pub detaches_held :
    (active : Bool) (n : ℕ) (calls : List UsbCall)
    → held_by_all (detaches active n ++ calls) (some (in_loop true with_handle))
      ≡ held_by_all calls (some (in_loop true with_handle))
detaches_held true n calls = refl
detaches_held false n calls = refl

pub begun_held :
    (a b : Bool) (n m : ℕ) (calls : List UsbCall)
    → held_by_all ((detaches a n ++ detaches b m) ++ calls) (some (in_loop true with_handle))
      ≡ held_by_all calls (some (in_loop true with_handle))
begun_held a b n m calls =
    rw (append_assoc (detaches a n) (detaches b m) calls)
      (detaches_held a n (detaches b m ++ calls) ∙ detaches_held b m calls)

-- What a round leaves held: the device with both interfaces claimed if it was taken, else nothing more than before.
abbrev pub depth_of : Bool × Finding × List UsbCall → Depth
depth_of (true, f, calls) = with_both f.dev.iface_comm f.dev.iface_data
depth_of (false, f, calls) = shut

-- A result whose calls lead from the state `h` to the one it says.
pub record Keeps (config : Bool) (r : Bool × Finding × List UsbCall) : Type 0 where
  pub held_eq : held_by_all r.2 (some (in_loop config shut)) ≡ some (in_loop false (depth_of r))

pub if-Keeps :
    (b config : Bool) (x y : Bool × Finding × List UsbCall)
    → Keeps config x
    → Keeps config y
    → Keeps config (if b then x else y)
if-Keeps true config x y h k = h
if-Keeps false config x y h k = k

pub comm_held :
    (n : ℕ)
    → held_by_all
        (claimed_comm n ∷ released_comm n ∷ closed ∷ freed_config ∷ [])
        (some (in_loop true with_handle))
      ≡ some (in_loop false shut)
comm_held n = rw (same_number n, held_by_all) refl

pub both_held :
    (n m : ℕ)
    → held_by_all
        (claimed_comm n
          ∷ claimed_data m
          ∷ released_data m
          ∷ released_comm n
          ∷ closed
          ∷ freed_config
          ∷ [])
        (some (in_loop true with_handle))
      ≡ some (in_loop false shut)
both_held n m = rw (same_number m, same_number n, held_by_all) refl
