-- ===== src/Ipc/Sending.antt =====
-- Who gets the lines that src/ipc.c sends.
use android_usb_tether_macos.Usb.{same_int}
use android_usb_tether_macos.Ipc.Slots.{IsConsistent}
use android_usb_tether_macos.Wire.{Bytes}
use android_usb_tether_macos.Ipc.{
  send_to_all, ipc_server_send_stats, ipc_server_send_state, open_clients, IpcServer,
  send_to_client,
}
use android_usb_tether_macos.Prelude.{
  ℕ, ◌∷◌, [], none, some, ℤ, List, Option, ◌≡◌, if◌then◌else◌, pos, length, ap, ==_of_ne, suc, ◌++◌,
  arith, refl,
}

-- The writes to a list of clients, one after the other.
abbrev pub to_each : (ℕ → Bytes → ℤ) → Bytes → List ℕ → List (ℕ × Bytes)
to_each write json [] = []
to_each write json (fd ∷ fds) = send_to_client write fd json ++ to_each write json fds

send_to_all_lem :
    (write : ℕ → Bytes → ℤ) (slots : List (Option ℕ)) (json : Bytes)
    → send_to_all write slots json ≡ to_each write json (open_clients slots)
unfolding send_to_all open_clients
send_to_all_lem write [] json = refl
send_to_all_lem write (none ∷ slots) json = send_to_all_lem write slots json
send_to_all_lem write (some fd ∷ slots) json =
    ap (λ t. send_to_client write fd json ++ t) (send_to_all_lem write slots json)

-- On a server whose count is right, both senders write to exactly the clients that are connected, in the
-- order of their slots: the shortcut that the statistics take on a count of 0 leaves nobody out.
pub ipc_server_send_lem :
    (write : ℕ → Bytes → ℤ) (srv : IpcServer) (json : Bytes)
    → IsConsistent srv
    → (ipc_server_send_stats write srv json ≡ to_each write json (open_clients srv.client_fds))
      × (ipc_server_send_state write srv json ≡ to_each write json (open_clients srv.client_fds))
unfolding ipc_server_send_stats ipc_server_send_state
ipc_server_send_lem write srv json c =
    let all = send_to_all_lem write srv.client_fds json in
    (rw c.counted (go (open_clients srv.client_fds) all), all)
  where
    go :
        (clients : List ℕ)
        → send_to_all write srv.client_fds json ≡ to_each write json clients
        → (if same_int (pos (length clients)) (pos 0)
            then []
            else send_to_all write srv.client_fds json)
          ≡ to_each write json clients
    go [] all = refl
    go (fd ∷ fds) all = rw (==_of_ne (suc (length fds)) 0 (omega arith)) all
