-- ===== src/ProtoRndis/Unwrap/Frames.antt =====
-- `rndis_drv_unwrap_data` on transfers that hold wrapped frames one after the other.
use android_usb_tether_macos.ProtoRndis.Unwrap.Steps.{unwrap_from-end, unwrap_from-next}
use android_usb_tether_macos.Rndis.RoundTrip.{rndis_parse_data_packet-encode}
use android_usb_tether_macos.Rndis.Build.{data_packet}
use android_usb_tether_macos.Wire.{Bytes, le32_at}
use android_usb_tether_macos.ProtoRndis.Unwrap.{
  deliver, unwrap_from, add_u32, rndis_drv_unwrap_data,
}
use android_usb_tether_macos.Rndis.{encode_data_packet, sizeof_data_packet}
use mathlib.Core.List.{append-nil, append_assoc}
use android_usb_tether_macos.Prelude.{
  ℕ, List, ◌<◌, length, ◌++◌, ◌+◌, take, ◌≡◌, ◌^◌, arith, ◌∷◌, [], All, refl, ap, some, suc,
  length-append, drop, drop-append, ◌∙◌, zero, drop_front, sym, take-append,
}

-- The message that `rndis_drv_wrap_frame` writes for a frame.
abbrev pub message : Bytes → Bytes
message frame =
    encode_data_packet (data_packet (length frame) (sizeof_data_packet + length frame)) ++ frame

abbrev pub messages : List Bytes → Bytes
messages [] = []
messages (f ∷ fs) = message f ++ messages fs

-- A callback that keeps the frames it was called with, in order.
abbrev pub collect : Bytes → ℕ → List Bytes → List Bytes
collect m n frames = frames ++ (take n m ∷ [])

pub length-message : (f : Bytes) → length (message f) ≡ sizeof_data_packet + length f
unfolding encode_data_packet
length-message f = omega arith

pub le32_at-message :
    (f rest : Bytes)
    → sizeof_data_packet + length f < 2 ^ 31
    → le32_at (message f ++ rest) 4 ≡ sizeof_data_packet + length f
unfolding encode_data_packet
le32_at-message f rest h = omega arith

pub length-header :
    (n : ℕ)
    → length (encode_data_packet (data_packet n (sizeof_data_packet + n))) ≡ sizeof_data_packet
unfolding encode_data_packet
length-header n = refl

module _ {S : Type 0} (on_frame : Bytes → ℕ → S → S) where
  -- The callback on each frame in turn; the memory behind a frame is the rest of the transfer.
  abbrev pub hand_over : List Bytes → Bytes → S → S
  hand_over [] stale ctx = ctx
  hand_over (f ∷ fs) stale ctx =
      hand_over fs stale (on_frame (f ++ (messages fs ++ stale)) (length f) ctx)

  deliver-message :
      (f rest : Bytes) (ctx : S)
      → 0 < length f
      → sizeof_data_packet + length f < 2 ^ 31
      → deliver on_frame (message f ++ rest) (sizeof_data_packet + length f) ctx
        ≡ on_frame (f ++ rest) (length f) ctx
  unfolding deliver
  deliver-message f rest ctx h k =
      let header = encode_data_packet (data_packet (length f) (sizeof_data_packet + length f)) in
      let e : message f ++ rest ≡ header ++ (f ++ rest) = append_assoc header f rest in
      rw (e, rndis_parse_data_packet-encode (length f) (f ++ rest) h k, deliver)
        (ap (λ t. on_frame t (length f) ctx)
          (rw e (drop_front sizeof_data_packet header (f ++ rest) (length-header (length f)))))

  unwrap_from-messages :
      (frames : List Bytes) (front stale : Bytes) (fuel usb_len : ℕ) (ctx : S)
      → All (λ f. 0 < length f) frames
      → length front + length (messages frames) ≡ usb_len
      → length (messages frames) < fuel
      → usb_len < 2 ^ 31
      → unwrap_from on_frame fuel (front ++ (messages frames ++ stale)) usb_len (length front) ctx
        ≡ some (hand_over frames stale ctx)
  unwrap_from-messages frames front stale zero usb_len ctx h e fuel_left small =
      absurd (omega arith)
  unwrap_from-messages [] front stale (suc fuel) usb_len ctx h e fuel_left small =
      unwrap_from-end on_frame fuel _ usb_len (length front) ctx (omega arith) (omega arith) small
  unwrap_from-messages (f ∷ fs) front stale (suc fuel) usb_len ctx h e fuel_left small =
      let n = sizeof_data_packet + length f in
      let size : length (messages (f ∷ fs)) ≡ n + length (messages fs) =
        omega (arith, length-append (message f) (messages fs), length-message f) in
      let at : drop (length front) (front ++ (messages (f ∷ fs) ++ stale))
          ≡ message f ++ (messages fs ++ stale) =
        drop-append front _ ∙ append_assoc (message f) (messages fs) stale in
      let sum : add_u32 (length front) n ≡ length front + n = omega arith in
      let regroup : front ++ (messages (f ∷ fs) ++ stale)
          ≡ (front ++ message f) ++ (messages fs ++ stale) =
        simp append_assoc in
      let moved : length front + n ≡ length (front ++ message f) =
        omega (arith, length-append front (message f), length-message f) in
      unwrap_from-next on_frame fuel _ usb_len (length front) ctx n
        (rw at (le32_at-message f _ (omega arith))) (omega arith) (omega arith) (omega arith) small
      ∙ rw (sum, at, deliver-message f (messages fs ++ stale) ctx h.0 (omega arith), moved, regroup)
          (unwrap_from-messages fs (front ++ message f) stale fuel usb_len
            (on_frame (f ++ (messages fs ++ stale)) (length f) ctx) h.1 (omega arith) (omega arith)
            small)

  -- The walk over the messages of frames that are not empty, for any callback.
  pub rndis_drv_unwrap_data-hand_over :
      (frames : List Bytes) (stale : Bytes) (ctx : S)
      → All (λ f. 0 < length f) frames
      → length (messages frames) < 2 ^ 31
      → rndis_drv_unwrap_data on_frame (messages frames ++ stale) (length (messages frames)) ctx
        ≡ some (hand_over frames stale ctx)
  unfolding rndis_drv_unwrap_data
  rndis_drv_unwrap_data-hand_over frames stale ctx h small =
      unwrap_from-messages frames [] stale _ _ ctx h (omega arith) (omega arith) small

hand_over-collect :
    (frames : List Bytes) (stale : Bytes) (acc : List Bytes)
    → hand_over collect frames stale acc ≡ acc ++ frames
hand_over-collect [] stale acc = sym (append-nil acc)
hand_over-collect (f ∷ fs) stale acc =
    rw (take-append f (messages fs ++ stale), hand_over-collect fs stale (acc ++ (f ∷ [])))
      (append_assoc acc (f ∷ []) fs)

-- A transfer that holds the messages of any frames, none of them empty, one after the other, gives
-- the callback exactly those frames in order, and the walk ends; the bytes of the buffer behind the
-- received ones do not matter.
pub rndis_drv_unwrap_data-messages :
    (frames : List Bytes) (stale : Bytes)
    → All (λ f. 0 < length f) frames
    → length (messages frames) < 2 ^ 31
    → rndis_drv_unwrap_data collect (messages frames ++ stale) (length (messages frames)) []
      ≡ some frames
rndis_drv_unwrap_data-messages frames stale h small =
    rndis_drv_unwrap_data-hand_over collect frames stale [] h small
    ∙ ap some (hand_over-collect frames stale [])

pub rndis_drv_unwrap_data-message :
    (frame : Bytes)
    → 0 < length frame
    → sizeof_data_packet + length frame < 2 ^ 31
    → rndis_drv_unwrap_data collect (message frame) (length (message frame)) [] ≡ some (frame ∷ [])
rndis_drv_unwrap_data-message frame h small =
    let one : messages (frame ∷ []) ≡ message frame = append-nil (message frame) in
    rw (append-nil, one) at
      (rndis_drv_unwrap_data-messages (frame ∷ []) [] (h, tt)
        (rw one (omega (arith, length-message frame))))
