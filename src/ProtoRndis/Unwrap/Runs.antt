-- ===== src/ProtoRndis/Unwrap/Runs.antt =====
-- `rndis_drv_unwrap_data` on concrete transfers.
use android_usb_tether_macos.ProtoRndis.Unwrap.Wrapping.{unwrap_from-never_ends}
use android_usb_tether_macos.ProtoRndis.Unwrap.Frames.{
  message, collect, messages, rndis_drv_unwrap_data-messages,
}
use android_usb_tether_macos.ProtoRndis.Unwrap.{unwrap_from, rndis_drv_unwrap_data}
use android_usb_tether_macos.ProtoRndis.Unwrap.Walk.{
  Reached, NoWrap, next, start, rndis_drv_unwrap_data_total,
}
use android_usb_tether_macos.Rndis.{encode_data_packet}
use android_usb_tether_macos.Wire.{Bytes}
use android_usb_tether_macos.Prelude.{
  ℕ, List, ◌∷◌, inl, ◌≡◌, [], arith, ◌⊎◌, none, inr, some, ◌++◌, All, length, ◌<◌, refl,
}

abbrev two_frames : List Bytes
two_frames = (1 ∷ 2 ∷ 3 ∷ []) ∷ (4 ∷ 5 ∷ []) ∷ []

abbrev transfer : Bytes
transfer = message (1 ∷ 2 ∷ 3 ∷ [])

-- A keep-alive message of 12 bytes, and behind it a length of 2 ^ 32 - 12.
abbrev circular : Bytes
circular =
    8 ∷ 0 ∷ 0 ∷ 0 ∷ 12 ∷ 0 ∷ 0 ∷ 0 ∷ 0 ∷ 0 ∷ 0 ∷ 0 ∷ 0 ∷ 0 ∷ 0 ∷ 0 ∷ 244 ∷ 255 ∷ 255 ∷ 255 ∷ []

transfer_offsets : {offset : ℕ} → Reached transfer 47 offset → (offset ≡ 0) ⊎ (offset ≡ 47)
transfer_offsets start = inl refl
transfer_offsets (next r h k) = elim (transfer_offsets r) [
  | inl e ↦ inr (rw e (unfold encode_data_packet in refl))
  | inr e ↦ absurd (omega arith)
]

transfer-NoWrap : NoWrap transfer 47
transfer-NoWrap offset r = elim (transfer_offsets r) [
  | inl e ↦ rw e (unfold encode_data_packet in omega arith)
  | inr e ↦ rw e (unfold encode_data_packet in omega arith)
]

rndis_drv_unwrap_data-messages_example :
    rndis_drv_unwrap_data collect
      (messages two_frames ++ (7 ∷ 7 ∷ []))
      (length (messages two_frames))
      []
    ≡ some two_frames
unfolding encode_data_packet
rndis_drv_unwrap_data-messages_example =
    rndis_drv_unwrap_data-messages two_frames (7 ∷ 7 ∷ []) (omega arith, (omega arith, tt))
      (omega arith)

rndis_drv_unwrap_data_total_example :
    (sizes : List ℕ) × (rndis_drv_unwrap_data (λ m n ns. n ∷ ns) transfer 47 [] ≡ some sizes)
    × All (λ n. 0 < n) sizes
unfolding encode_data_packet
rndis_drv_unwrap_data_total_example =
    rndis_drv_unwrap_data_total (λ m n ns. n ∷ ns) (λ ns. All (λ n. 0 < n) ns) transfer 47 []
      (λ k n ns positive inside all. (positive, all)) (omega arith) (omega arith) transfer-NoWrap tt

unwrap_from-never_ends_example :
    unwrap_from (λ m n (ns : List ℕ). n ∷ ns) 1000000 circular 20 0 [] ≡ none
unwrap_from-never_ends_example =
    unwrap_from-never_ends (λ m n ns. n ∷ ns) circular 20 12 1000000 [] (omega arith) (omega arith)
      (omega arith) (omega arith) (omega arith)
