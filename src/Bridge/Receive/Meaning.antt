-- ===== src/Bridge/Receive/Meaning.antt =====
-- What the receive path of src/main.c is for, without buffers, lengths and calls: the gateway's address
-- and the packets that the Mac gets.
use android_usb_tether_macos.Frame.{sizeof_eth_hdr, choose_family}
use android_usb_tether_macos.Bridge.{
  BridgeCtx, Call, wrote_utun, submitted, buffer_allocated, buffer_freed, transfer_allocated,
  transfer_freed, resubmitted, halt_cleared,
}
use android_usb_tether_macos.Wire.{Bytes, byte, be16_at, be32}
use mathlib.Core.List.{append-nil}
use android_usb_tether_macos.Prelude.{
  ◌∷◌, [], Bool, true, false, none, some, List, Option, if◌then◌else◌, ◌++◌, ◌≡◌, leb, ap, refl,
  length, ◌&&◌, not, ◌==◌, drop, take,
}

pub record Link : Type 0 where
  pub gateway : Option Bytes
  pub delivered : List Bytes

abbrev pub writes : List Call → List Bytes
writes [] = []
writes (wrote_utun p ∷ cs) = p ∷ writes cs
writes (_ ∷ cs) = writes cs

abbrev pub learned_of : Bool → Bytes → Option Bytes
learned_of true mac = some mac
learned_of false mac = none

abbrev pub link_of : BridgeCtx → Link
link_of ctx = record {
  gateway = learned_of ctx.gw_mac_learned ctx.gw_mac;
  delivered = writes ctx.calls;
}

-- The gateway after a frame: the first source address that is not a broadcast stays.
abbrev pub gateway_after : Bytes → Option Bytes → Option Bytes
gateway_after frame (some mac) = some mac
gateway_after frame none =
    if leb sizeof_eth_hdr (length frame) && not (byte frame 6 == 0xFF)
    then some (take 6 (drop 6 frame))
    else none

-- The packet of a frame: IPv4 or IPv6, with its family in front, if the frame fits the arrays.
abbrev pub packet_of : Bytes → List Bytes
packet_of frame =
    if leb sizeof_eth_hdr (length frame) && leb (length frame) 2314
    then elim (choose_family (be16_at frame 12)) [
      | none ↦ []
      | some af ↦ (be32 af ++ drop sizeof_eth_hdr frame) ∷ []
    ]
    else []

abbrev pub receive : Bytes → Link → Link
receive frame link = record {
  gateway = gateway_after frame link.gateway;
  delivered = link.delivered ++ packet_of frame;
}

abbrev pub receive_all : List Bytes → Link → Link
receive_all [] link = link
receive_all (f ∷ fs) link = receive_all fs (receive f link)

pub writes-append : (cs ds : List Call) → writes (cs ++ ds) ≡ writes cs ++ writes ds
writes-append [] ds = refl
writes-append (wrote_utun p ∷ cs) ds = ap (λ t. p ∷ t) (writes-append cs ds)
writes-append (buffer_allocated ∷ cs) ds = writes-append cs ds
writes-append (buffer_freed ∷ cs) ds = writes-append cs ds
writes-append (transfer_allocated ∷ cs) ds = writes-append cs ds
writes-append (transfer_freed ∷ cs) ds = writes-append cs ds
writes-append (submitted b ∷ cs) ds = writes-append cs ds
writes-append (resubmitted ∷ cs) ds = writes-append cs ds
writes-append (halt_cleared ∷ cs) ds = writes-append cs ds

pub writes_same : (cs ds : List Call) → writes ds ≡ [] → writes (cs ++ ds) ≡ writes cs
writes_same cs ds e = rw (writes-append cs ds, e, append-nil) refl
