-- ===== src/Rndis/Requests.antt =====
-- The control messages that src/rndis.c builds: their fields, and the request ids.
use android_usb_tether_macos.Prelude.{
  ℕ, ◌+◌, ◌%◌, ◌^◌, ◌≤◌, ◌<◌, ◌≡◌, ◌≢◌, ℤ, refl, ◌++◌, length, take, drop, pos, arith, le→ltb, ap,
  to_int_small,
}
use android_usb_tether_macos.Wire.{Bytes, le32_at}
use android_usb_tether_macos.Wire.Laws.{payload_behind_header, write_at-header, write_at-front}
use android_usb_tether_macos.Rndis.{
  OidMsg, RndisState, encode_oid_msg, encode_init_msg, encode_keepalive_msg, sizeof_oid_msg,
  sizeof_init_msg, sizeof_keepalive_msg, rndis_msg_set, rndis_msg_init, rndis_msg_query,
  rndis_msg_keepalive,
}
use android_usb_tether_macos.Rndis.Build.{
  size_add, next_request, set_msg, rndis_build_set, rndis_build_init, rndis_build_query,
  rndis_build_keepalive,
}

length-encode_oid_msg : (m : OidMsg) → length (encode_oid_msg m) ≡ sizeof_oid_msg
unfolding encode_oid_msg
length-encode_oid_msg m = refl

pub rndis_build_set_lem :
    (buf : Bytes) (oid : ℕ) (payload : Bytes) (state : RndisState)
    → sizeof_oid_msg + length payload ≤ length buf
    → length buf < 2 ^ 31
    → let total = sizeof_oid_msg + length payload in
      let id = (state.request_id + 1) % 2 ^ 32 in
      rndis_build_set buf oid payload state ≡ (
        pos total,
        encode_oid_msg (set_msg oid (length payload) total id) ++ (payload ++ drop total buf),
        next_request state,
      )
unfolding rndis_build_set
rndis_build_set_lem buf oid payload state h k =
    let total = sizeof_oid_msg + length payload in
    let e : size_add sizeof_oid_msg (length payload) ≡ total = omega arith in
    rw (e, le→ltb (length buf) total h, to_int_small total (omega arith))
      (ap (λ t. (pos total, t, next_request state))
        (write_at-header sizeof_oid_msg
          (encode_oid_msg (set_msg oid (length payload) total ((state.request_id + 1) % 2 ^ 32)))
          payload buf (length-encode_oid_msg _) h))

set_fields :
    (oid total n id : ℕ) (rest : Bytes)
    → oid < 2 ^ 32
    → total < 2 ^ 32
    → n ≤ total
    → id < 2 ^ 32
    → let m = encode_oid_msg (set_msg oid n total id) ++ rest in
      (le32_at m 0 ≡ rndis_msg_set)
      × (le32_at m 4 ≡ total)
      × (le32_at m 8 ≡ id)
      × (le32_at m 12 ≡ oid)
      × (le32_at m 16 ≡ n)
      × (le32_at m 20 ≡ 20)
unfolding encode_oid_msg
set_fields oid total n id rest h0 h1 h2 h3 = omega arith

-- A set request that fits carries its type, its whole length, the new request id of the state, the
-- OID and the length of the data in its fields, and the data lie where its offset field says,
-- counted from the request id field at byte 8.
pub rndis_build_set_fields :
    (buf : Bytes) (oid : ℕ) (payload : Bytes) (state : RndisState)
    → oid < 2 ^ 32
    → sizeof_oid_msg + length payload ≤ length buf
    → length buf < 2 ^ 31
    → let (r, msg, state') = rndis_build_set buf oid payload state in
      (r ≡ pos (le32_at msg 4))
      × (le32_at msg 0 ≡ rndis_msg_set)
      × (le32_at msg 4 ≡ sizeof_oid_msg + length payload)
      × (le32_at msg 8 ≡ state'.request_id)
      × (le32_at msg 12 ≡ oid)
      × (take (le32_at msg 16) (drop (8 + le32_at msg 20) msg) ≡ payload)
rndis_build_set_fields buf oid payload state h0 h k =
    let total = sizeof_oid_msg + length payload in
    let id = (state.request_id + 1) % 2 ^ 32 in
    let header = encode_oid_msg (set_msg oid (length payload) total id) in
    let (f0, f4, f8, f12, f16, f20) =
      set_fields oid total (length payload) id (payload ++ drop total buf) h0 (omega arith)
        (omega arith) (omega arith) in
    rw (rndis_build_set_lem buf oid payload state h k) (
      rw f4,
      f0,
      f4,
      f8,
      f12,
      rw (f16, f20)
          (payload_behind_header header payload (drop total buf) sizeof_oid_msg
            (length-encode_oid_msg _)).0,
    )

-- What a request builder returns for a message of `size` bytes: its length, a message with that
-- length and the new id in its fields, and a state whose id has moved on and that is otherwise the same.
pub record IsRequest (kind size : ℕ) (state : RndisState) (out : ℤ × Bytes × RndisState)
    : Type 0 where
  pub returned : out.0 ≡ pos size
  pub kind_sent : le32_at out.1 0 ≡ kind
  pub length_sent : le32_at out.1 4 ≡ size
  pub id_sent : le32_at out.1 8 ≡ out.2.request_id
  pub id_fresh : out.2.request_id ≢ state.request_id
  pub rest_kept : out.2 ≡ next_request state

rndis_build_init-IsRequest :
    (buf : Bytes) (state : RndisState)
    → sizeof_init_msg ≤ length buf
    → state.request_id < 2 ^ 32
    → IsRequest rndis_msg_init sizeof_init_msg state (rndis_build_init buf state)
unfolding rndis_build_init encode_init_msg
rndis_build_init-IsRequest buf state h k =
    rw (le→ltb (length buf) sizeof_init_msg h, write_at-front _ buf h)
      (record {
        returned = refl;
        kind_sent = refl;
        length_sent = refl;
        id_sent = omega arith;
        id_fresh = omega arith;
        rest_kept = refl;
      })

rndis_build_query-IsRequest :
    (buf : Bytes) (oid : ℕ) (state : RndisState)
    → sizeof_oid_msg ≤ length buf
    → state.request_id < 2 ^ 32
    → IsRequest rndis_msg_query sizeof_oid_msg state (rndis_build_query buf oid state)
unfolding rndis_build_query encode_oid_msg
rndis_build_query-IsRequest buf oid state h k =
    rw (le→ltb (length buf) sizeof_oid_msg h, write_at-front _ buf h)
      (record {
        returned = refl;
        kind_sent = refl;
        length_sent = refl;
        id_sent = omega arith;
        id_fresh = omega arith;
        rest_kept = refl;
      })

rndis_build_keepalive-IsRequest :
    (buf : Bytes) (state : RndisState)
    → sizeof_keepalive_msg ≤ length buf
    → state.request_id < 2 ^ 32
    → IsRequest rndis_msg_keepalive sizeof_keepalive_msg state (rndis_build_keepalive buf state)
unfolding rndis_build_keepalive encode_keepalive_msg
rndis_build_keepalive-IsRequest buf state h k =
    rw (le→ltb (length buf) sizeof_keepalive_msg h, write_at-front _ buf h)
      (record {
        returned = refl;
        kind_sent = refl;
        length_sent = refl;
        id_sent = omega arith;
        id_fresh = omega arith;
        rest_kept = refl;
      })

rndis_build_set-IsRequest :
    (buf : Bytes) (oid : ℕ) (payload : Bytes) (state : RndisState)
    → oid < 2 ^ 32
    → sizeof_oid_msg + length payload ≤ length buf
    → length buf < 2 ^ 31
    → state.request_id < 2 ^ 32
    → IsRequest rndis_msg_set
        (sizeof_oid_msg + length payload)
        state
        (rndis_build_set buf oid payload state)
rndis_build_set-IsRequest buf oid payload state h0 h k l =
    let total = sizeof_oid_msg + length payload in
    let id = (state.request_id + 1) % 2 ^ 32 in
    let (f0, f4, f8, f12, f16, f20) =
      set_fields oid total (length payload) id (payload ++ drop total buf) h0 (omega arith)
        (omega arith) (omega arith) in
    rw (rndis_build_set_lem buf oid payload state h k) (record {
      returned = refl;
      kind_sent = f0;
      length_sent = f4;
      id_sent = f8;
      id_fresh = omega arith;
      rest_kept = refl;
    })

-- Each of the four request builders, given a buffer that its message fits, returns the length of
-- the message, writes its type and that length into the first two fields and the request id of the
-- new state into the third; the new id is not the old one, even where it wraps, and the rest of the
-- state is kept.
pub requests_numbered :
    (buf : Bytes) (oid : ℕ) (payload : Bytes) (state : RndisState)
    → oid < 2 ^ 32
    → sizeof_oid_msg + length payload ≤ length buf
    → length buf < 2 ^ 31
    → state.request_id < 2 ^ 32
    → IsRequest rndis_msg_init sizeof_init_msg state (rndis_build_init buf state)
      × IsRequest rndis_msg_query sizeof_oid_msg state (rndis_build_query buf oid state)
      × IsRequest rndis_msg_set
          (sizeof_oid_msg + length payload)
          state
          (rndis_build_set buf oid payload state)
      × IsRequest rndis_msg_keepalive sizeof_keepalive_msg state (rndis_build_keepalive buf state)
requests_numbered buf oid payload state h0 h k l = (
  rndis_build_init-IsRequest buf state (omega arith) l,
  rndis_build_query-IsRequest buf oid state (omega arith) l,
  rndis_build_set-IsRequest buf oid payload state h0 h k l,
  rndis_build_keepalive-IsRequest buf state (omega arith) l,
)
