-- ===== src/Bridge/Receive/Books.antt =====
-- src/main.c: what the receive path keeps true of its counters, of the gateway's address and of what it
-- allocates, over any transfer, well formed or not.
use android_usb_tether_macos.Arp.{arp_ethertype}
use android_usb_tether_macos.Frame.{sizeof_eth_hdr}
use android_usb_tether_macos.Bridge.Receive.Delivery.{frame_eth_to_utun-packet_of}
use android_usb_tether_macos.Bridge.Receive.Replies.{
  Settled, sent, nothing, answer_arp-Replied, dropped, refused,
}
use android_usb_tether_macos.Wire.{Bytes, byte, be16_at}
use android_usb_tether_macos.Bridge.Receive.{inject, answer_arp, process_rx_frame, learn_gateway}
use android_usb_tether_macos.Bridge.{
  System, BridgeCtx, Call, transfer_allocated, buffer_allocated, submitted, wrote_utun,
  buffer_freed, transfer_freed, resubmitted,
}
use android_usb_tether_macos.Prelude.{
  ℕ, ◌∷◌, [], true, false, ◌^◌, ◌+◌, ◌%◌, inl, inr, List, ◌≡◌, ◌++◌, length, arith, ◌<◌, ◌⊎◌,
  Bool-cases, lt→ltb, leb, take-append, ◌&&◌, refl, ◌==◌, take, length-take, not,
}

-- What a call adds to a count.
abbrev pub buffers_taken : Call → ℕ
buffers_taken buffer_allocated = 1
buffers_taken _ = 0

abbrev pub buffers_ended : Call → ℕ
buffers_ended buffer_freed = 1
buffers_ended (submitted _) = 1
buffers_ended _ = 0

abbrev pub transfers_taken : Call → ℕ
transfers_taken transfer_allocated = 1
transfers_taken _ = 0

abbrev pub transfers_ended : Call → ℕ
transfers_ended transfer_freed = 1
transfers_ended (submitted _) = 1
transfers_ended _ = 0

abbrev pub packets_written : Call → ℕ
packets_written (wrote_utun _) = 1
packets_written _ = 0

-- A packet of n bytes came in a frame of n + 10: a family of 4 bytes stands for a header of 14.
abbrev pub bytes_written : Call → ℕ
bytes_written (wrote_utun packet) = length packet + 10
bytes_written _ = 0

abbrev pub sum_of : (Call → ℕ) → List Call → ℕ
sum_of f [] = 0
sum_of f (c ∷ cs) = f c + sum_of f cs

-- Every buffer and transfer is freed or with libusb, and the counters tell what the Mac got.
pub record IsBalanced (ctx : BridgeCtx) : Type 0 where
  pub buffers : sum_of buffers_taken ctx.calls ≡ sum_of buffers_ended ctx.calls
  pub transfers : sum_of transfers_taken ctx.calls ≡ sum_of transfers_ended ctx.calls
  pub packets : ctx.rx_pkts ≡ sum_of packets_written ctx.calls % 2 ^ 64
  pub bytes : ctx.rx_bytes ≡ sum_of bytes_written ctx.calls % 2 ^ 64

pub sum_of-append :
    (f : Call → ℕ) (cs ds : List Call) → sum_of f (cs ++ ds) ≡ sum_of f cs + sum_of f ds
sum_of-append f [] ds = omega arith
sum_of-append f (c ∷ cs) ds = omega (arith, sum_of-append f cs ds)

abbrev pub resubmissions : Call → ℕ
resubmissions resubmitted = 1
resubmissions _ = 0

-- What a settled run of calls adds to the counts.
pub record Neutral (ds : List Call) : Type 0 where
  pub buffers : sum_of buffers_taken ds ≡ sum_of buffers_ended ds
  pub transfers : sum_of transfers_taken ds ≡ sum_of transfers_ended ds
  pub packets : sum_of packets_written ds ≡ 0
  pub bytes : sum_of bytes_written ds ≡ 0
  pub resubmits : sum_of resubmissions ds ≡ 0

Settled-Neutral : (ds : List Call) → Settled ds → Neutral ds
Settled-Neutral _ nothing = record {
  buffers = refl;
  transfers = refl;
  packets = refl;
  bytes = refl;
  resubmits = refl;
}
Settled-Neutral _ dropped = record {
  buffers = refl;
  transfers = refl;
  packets = refl;
  bytes = refl;
  resubmits = refl;
}
Settled-Neutral _ refused = record {
  buffers = refl;
  transfers = refl;
  packets = refl;
  bytes = refl;
  resubmits = refl;
}
Settled-Neutral _ (sent b) = record {
  buffers = refl;
  transfers = refl;
  packets = refl;
  bytes = refl;
  resubmits = refl;
}

-- What every frame leaves as it was found, from the context `ctx` on.
pub record Kept (ctx ctx' : BridgeCtx) : Type 0 where
  pub balanced : IsBalanced ctx'
  pub gateway :
      (ctx.gw_mac_learned ≡ false) ⊎ ((ctx'.gw_mac_learned ≡ true) × (ctx'.gw_mac ≡ ctx.gw_mac))
  pub running_eq : ctx'.running ≡ ctx.running
  pub disconnected_eq : ctx'.disconnected ≡ ctx.disconnected
  pub active_rx_eq : ctx'.active_rx ≡ ctx.active_rx
  pub resubmits_eq : sum_of resubmissions ctx'.calls ≡ sum_of resubmissions ctx.calls

pub Kept-calls :
    (ctx ctx' : BridgeCtx) (ds : List Call)
    → Neutral ds
    → Kept ctx ctx'
    → Kept ctx (record ctx' { calls = ctx'.calls ++ ds })
Kept-calls ctx ctx' ds n k =
    let sums : (f : Call → ℕ) → sum_of f (ctx'.calls ++ ds) ≡ sum_of f ctx'.calls + sum_of f ds =
      λ f. sum_of-append f ctx'.calls ds in
    record {
      gateway = k.gateway;
      running_eq = k.running_eq;
      disconnected_eq = k.disconnected_eq;
      active_rx_eq = k.active_rx_eq;
      balanced = record {
        buffers =
            omega (arith, sums buffers_taken, sums buffers_ended, n.buffers, k.balanced.buffers);
        transfers =
            omega (
              arith,
              sums transfers_taken,
              sums transfers_ended,
              n.transfers,
              k.balanced.transfers,
            );
        packets = omega (arith, sums packets_written, n.packets, k.balanced.packets);
        bytes = omega (arith, sums bytes_written, n.bytes, k.balanced.bytes);
      };
      resubmits_eq = omega (arith, sums resubmissions, n.resubmits, k.resubmits_eq);
    }

module _ (sys : System) (ctx : BridgeCtx) where
  answer_arp-Kept : (frame : Bytes) (c : BridgeCtx) → Kept ctx c → Kept ctx (answer_arp sys frame c)
  answer_arp-Kept frame c k =
      let r = answer_arp-Replied sys frame c in
      rw r.only_calls (Kept-calls ctx c r.made (Settled-Neutral r.made r.settled) k)

  still_open :
      {A : Type 0} (c : BridgeCtx)
      → ((ctx.gw_mac_learned ≡ false) ⊎ ((c.gw_mac_learned ≡ true) × (c.gw_mac ≡ ctx.gw_mac)))
      → c.gw_mac_learned ≡ false
      → (ctx.gw_mac_learned ≡ false) ⊎ A
  still_open c (inl e) f = inl e
  still_open c (inr (e, _)) f = absurd (ground arith)

  learn_gateway-Kept :
      (frame : Bytes) (n : ℕ) (c : BridgeCtx) → Kept ctx c → Kept ctx (learn_gateway frame n c)
  unfolding learn_gateway
  learn_gateway-Kept frame n c k =
      elim (Bool-cases (not c.gw_mac_learned && leb sizeof_eth_hdr n)) [
        | inr e ↦ rw e k
        | inl e ↦ elim (Bool-cases (byte frame 6 == 0xFF)) [
          | inl g ↦ rw (e, g) k
          | inr g ↦
              rw (e, g)
                (record {
                  balanced = record {
                    buffers = k.balanced.buffers;
                    transfers = k.balanced.transfers;
                    packets = k.balanced.packets;
                    bytes = k.balanced.bytes;
                  };
                  gateway = still_open c k.gateway (ground arith);
                  running_eq = k.running_eq;
                  disconnected_eq = k.disconnected_eq;
                  active_rx_eq = k.active_rx_eq;
                  resubmits_eq = k.resubmits_eq;
                })
        ]
      ]

  inject-Kept :
      (frame : Bytes) (c : BridgeCtx)
      → length frame < 2 ^ 31
      → length (sys.tbuf c.calls) ≡ 2304
      → Kept ctx c
      → Kept ctx (inject sys frame c)
  unfolding inject
  inject-Kept frame c small size k =
      let sums : (f : Call → ℕ) (p : Bytes)
          → sum_of f (c.calls ++ (wrote_utun p ∷ [])) ≡ sum_of f c.calls + (f (wrote_utun p) + 0) =
        λ f p. sum_of-append f c.calls (wrote_utun p ∷ []) in
      elim (frame_eth_to_utun-packet_of frame (sys.tbuf c.calls) small size) [
        | inr (_, e) ↦ rw e k
        | inl (packet, _, r) ↦
            rw (r.result_eq, lt→ltb 0 (length packet) r.some_bytes, take-append packet _)
              (record {
                balanced = record {
                  buffers = omega (
                    arith,
                    sums buffers_taken packet,
                    sums buffers_ended packet,
                    k.balanced.buffers,
                  );
                  transfers = omega (
                    arith,
                    sums transfers_taken packet,
                    sums transfers_ended packet,
                    k.balanced.transfers,
                  );
                  packets = omega (arith, sums packets_written packet, k.balanced.packets);
                  bytes = omega (arith, sums bytes_written packet, k.balanced.bytes, r.size_eq);
                };
                gateway = k.gateway;
                running_eq = k.running_eq;
                disconnected_eq = k.disconnected_eq;
                active_rx_eq = k.active_rx_eq;
                resubmits_eq = omega (arith, sums resubmissions packet, k.resubmits_eq);
              })
      ]

  pub process_rx_frame-Kept :
      (frame : Bytes) (n : ℕ) (c : BridgeCtx)
      → n < 2 ^ 31
      → ((cs : List Call) → length (sys.tbuf cs) ≡ 2304)
      → Kept ctx c
      → Kept ctx (process_rx_frame sys frame n c)
  unfolding process_rx_frame
  process_rx_frame-Kept frame n c small size k =
      let c' = learn_gateway frame n c in
      let k' = learn_gateway-Kept frame n c k in
      elim (Bool-cases (leb sizeof_eth_hdr n && (be16_at frame 12 == arp_ethertype))) [
        | inl e ↦ rw e (answer_arp-Kept (take n frame) c' k')
        | inr e ↦
            rw e (
              inject-Kept (take n frame) c' (omega (arith, length-take n frame)) (size c'.calls) k')
      ]
