-- ===== src/Ipc/Start.antt =====
-- What `ipc_server_create` leaves: a server without clients, or no socket.
use android_usb_tether_macos.Ipc.Slots.{IsConsistent}
use android_usb_tether_macos.Ipc.{
  ipc_server_create, CreateEnv, Action, give_access, IpcServer, ipc_server_destroy, close_socket,
  open_clients,
}
use android_usb_tether_macos.Prelude.{
  ℕ, ◌∷◌, [], none, some, true, false, refl, Option, List, ◌++◌, ◌≡◌, Bool,
}

abbrev pub closes : List Action → List ℕ
closes [] = []
closes (close_socket fd ∷ rest) = fd ∷ closes rest
closes (a ∷ rest) = closes rest

abbrev pub opened_fds : Option ℕ → List ℕ
opened_fds none = []
opened_fds (some fd) = fd ∷ []

-- What the caller gets, seen as the sockets it can close again.
abbrev pub held : Option IpcServer → List ℕ
held none = []
held (some srv) = ipc_server_destroy srv

abbrev pub Started : Option IpcServer → Type 0
Started none = Unit {0}
Started (some srv) = IsConsistent srv

abbrev Created : CreateEnv → Type 0
Created env =
    let (out, actions) = ipc_server_create env in
    Started out × (closes actions ++ held out ≡ opened_fds env.opened)

created :
    (opened : Option ℕ) (binds listens : Bool) (sudo : Option (ℕ × ℕ))
    → Created (record { opened = opened; binds = binds; listens = listens; sudo = sudo })
unfolding ipc_server_create give_access ipc_server_destroy open_clients
created none binds listens sudo = (tt, refl)
created (some fd) false listens sudo = (tt, refl)
created (some fd) true false none = (tt, refl)
created (some fd) true false (some (uid, gid)) = (tt, refl)
created (some fd) true true none = (record { four_slots = refl; counted = refl }, refl)
created (some fd) true true (some (uid, gid)) = (record { four_slots = refl; counted = refl }, refl)

-- However the system calls turn out, a server that is handed out is consistent and has no clients, and
-- every socket that was opened is closed exactly once: by the function itself where it fails, else by
-- `ipc_server_destroy` on the server that it returns.
pub ipc_server_create_lem :
    (env : CreateEnv)
    → let (out, actions) = ipc_server_create env in
      Started out × (closes actions ++ held out ≡ opened_fds env.opened)
ipc_server_create_lem env = created env.opened env.binds env.listens env.sudo
