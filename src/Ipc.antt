-- ===== src/Ipc.antt =====
-- src/ipc.c: the server's client slots. A slot is `none` for -1, else the client's descriptor. What the
-- system calls give is an argument, and the descriptors that a function closes and the lines that it
-- writes are results.
pub mod Slots
pub mod Commands
pub mod Sending
pub mod Start
mod Runs
use android_usb_tether_macos.Usb.{same_int}
use android_usb_tether_macos.Wire.{Bytes, byte}
use android_usb_tether_macos.Prelude.{
  ℕ, Option, ℤ, List, if◌then◌else◌, none, ◌∷◌, pos, ◌++◌, Bool, [], some, ◌||◌, is_negative, true,
  ◌+◌, negsuc, ◌==◌, take, pos_part, suc, false, ◌-◌, zero, ◌&&◌, length, not, replicate,
}

abbrev pub max_clients : ℕ
max_clients = 4

abbrev pub ipc_buf_size : ℕ
ipc_buf_size = 1024

abbrev pub ipc_cmd_none : ℕ
ipc_cmd_none = 0

abbrev pub ipc_cmd_stop : ℕ
ipc_cmd_stop = 1

abbrev pub ipc_cmd_disable : ℕ
ipc_cmd_disable = 2

abbrev pub ipc_cmd_enable : ℕ
ipc_cmd_enable = 3

-- `struct ipc_server`
pub record IpcServer : Type 0 where
  pub listen_fd : ℕ
  pub client_fds : List (Option ℕ)
  pub num_clients : ℤ

-- `num_clients++` and `num_clients--`.
abbrev pub inc : ℤ → ℤ
inc (pos n) = pos (n + 1)
inc (negsuc zero) = pos 0
inc (negsuc (suc n)) = negsuc n

abbrev pub dec : ℤ → ℤ
dec (pos zero) = negsuc 0
dec (pos (suc n)) = pos n
dec (negsuc n) = negsuc (suc n)

-- The search for a free slot and the store into it: the slots after it, or `none` if all are taken.
unfoldable pub take_slot : ℕ → List (Option ℕ) → Option (List (Option ℕ))
take_slot fd [] = none
take_slot fd (none ∷ slots) = some (some fd ∷ slots)
take_slot fd (some other ∷ slots) = elim (take_slot fd slots) [
  | none ↦ none
  | some slots' ↦ some (some other ∷ slots')
]

-- A new connection. The second result is what was closed.
unfoldable pub accept_client : Option ℕ → IpcServer → IpcServer × List ℕ
accept_client none srv = (srv, [])
accept_client (some client_fd) srv = elim (take_slot client_fd srv.client_fds) [
  | none ↦ (srv, client_fd ∷ [])
  | some slots ↦ (record srv { client_fds = slots; num_clients = inc srv.num_clients }, [])
]

-- What `read` gives for a client: bytes, the end of the stream, EAGAIN or EWOULDBLOCK, or another error.
pub data ReadResult : Type 0 where
  received : Bytes → ReadResult
  disconnected : ReadResult
  would_block : ReadResult
  failed : ReadResult

-- The bytes of the C string at the start of a buffer.
abbrev pub c_string : Bytes → Bytes
c_string [] = []
c_string (b ∷ bs) = if b == 0 then [] else b ∷ c_string bs

abbrev pub starts_with : Bytes → Bytes → Bool
starts_with [] text = true
starts_with (x ∷ xs) [] = false
starts_with (x ∷ xs) (y ∷ ys) = (x == y) && starts_with xs ys

-- `strstr(text, needle) != NULL`.
abbrev pub contains : Bytes → Bytes → Bool
contains needle [] = starts_with needle []
contains needle (b ∷ bs) = starts_with needle (b ∷ bs) || contains needle bs

-- "stop", "disable" and "enable" with their quotes.
abbrev pub stop_word : Bytes
stop_word = 34 ∷ 115 ∷ 116 ∷ 111 ∷ 112 ∷ 34 ∷ []

abbrev pub disable_word : Bytes
disable_word = 34 ∷ 100 ∷ 105 ∷ 115 ∷ 97 ∷ 98 ∷ 108 ∷ 101 ∷ 34 ∷ []

abbrev pub enable_word : Bytes
enable_word = 34 ∷ 101 ∷ 110 ∷ 97 ∷ 98 ∷ 108 ∷ 101 ∷ 34 ∷ []

-- `stop_requested` after a buffer was read.
unfoldable pub command_of : Bytes → ℕ → ℕ
command_of buf requested =
    let text = c_string buf in
    if contains stop_word text
    then ipc_cmd_stop
    else if contains disable_word text
    then ipc_cmd_disable
    else if contains enable_word text
    then ipc_cmd_enable
    else requested

-- The loop over the slots: the slots and the count after it, what was closed, and `stop_requested`. A
-- read takes at most `sizeof(buf) - 1` bytes.
unfoldable pub read_clients :
    (ℕ → ReadResult) → List (Option ℕ) → ℤ → ℕ → List (Option ℕ) × ℤ × List ℕ × ℕ
read_clients read [] count requested = ([], count, [], requested)
read_clients read (none ∷ slots) count requested =
    let (slots', count', closed, requested') = read_clients read slots count requested in
    (none ∷ slots', count', closed, requested')
read_clients read (some fd ∷ slots) count requested = elim (read fd) [
  | received buf ↦
      let (slots', count', closed, requested') =
        read_clients read slots count (command_of (take (ipc_buf_size - 1) buf) requested) in
      (some fd ∷ slots', count', closed, requested')
  | disconnected ↦
      let (slots', count', closed, requested') = read_clients read slots (dec count) requested in
      (none ∷ slots', count', fd ∷ closed, requested')
  | would_block ↦
      let (slots', count', closed, requested') = read_clients read slots count requested in
      (some fd ∷ slots', count', closed, requested')
  | failed ↦
      let (slots', count', closed, requested') = read_clients read slots (dec count) requested in
      (none ∷ slots', count', fd ∷ closed, requested')
]

-- The returned command, the server, and what was closed.
unfoldable pub ipc_server_poll : Option ℕ → (ℕ → ReadResult) → IpcServer → ℕ × IpcServer × List ℕ
ipc_server_poll accepted read srv =
    let (srv', turned_away) = accept_client accepted srv in
    let (slots, count, closed, requested) =
      read_clients read srv'.client_fds srv'.num_clients ipc_cmd_none in
    (requested, record srv' { client_fds = slots; num_clients = count }, turned_away ++ closed)

-- The writes to one client: the line, and a newline if the line was written and has none. `write` gives
-- the result of the first.
unfoldable pub send_to_client : (ℕ → Bytes → ℤ) → ℕ → Bytes → List (ℕ × Bytes)
send_to_client write fd json =
    let written = write fd json in
    if is_negative written || (pos_part written == 0)
    then (fd, json) ∷ []
    else if byte json (length json - 1) == 10
    then (fd, json) ∷ []
    else (fd, json) ∷ (fd, 10 ∷ []) ∷ []

unfoldable pub send_to_all : (ℕ → Bytes → ℤ) → List (Option ℕ) → Bytes → List (ℕ × Bytes)
send_to_all write [] json = []
send_to_all write (none ∷ slots) json = send_to_all write slots json
send_to_all write (some fd ∷ slots) json =
    send_to_client write fd json ++ send_to_all write slots json

-- `json` is the formatted line.
unfoldable pub ipc_server_send_stats : (ℕ → Bytes → ℤ) → IpcServer → Bytes → List (ℕ × Bytes)
ipc_server_send_stats write srv json =
    if same_int srv.num_clients (pos 0) then [] else send_to_all write srv.client_fds json

unfoldable pub ipc_server_send_state : (ℕ → Bytes → ℤ) → IpcServer → Bytes → List (ℕ × Bytes)
ipc_server_send_state write srv json = send_to_all write srv.client_fds json

-- The descriptors of the clients, in the order of their slots.
unfoldable pub open_clients : List (Option ℕ) → List ℕ
open_clients [] = []
open_clients (none ∷ slots) = open_clients slots
open_clients (some fd ∷ slots) = fd ∷ open_clients slots

-- What is closed: the clients, then the socket that listens.
unfoldable pub ipc_server_destroy : IpcServer → List ℕ
ipc_server_destroy srv = open_clients srv.client_fds ++ (srv.listen_fd ∷ [])

-- What `ipc_server_create` does to the system, in order, once it has removed a stale socket.
pub data Action : Type 0 where
  bind_socket : ℕ → Action
  change_owner : ℕ → ℕ → Action
  change_mode : ℕ → Action
  listen_on : ℕ → Action
  close_socket : ℕ → Action
  unlink_socket : Action
  nonblocking : ℕ → Action

-- The environment: the socket that the system gives, whether binding and listening succeed, and the user
-- and group of SUDO_UID and SUDO_GID if both are set. A failed allocation is left out.
pub record CreateEnv : Type 0 where
  pub opened : Option ℕ
  pub binds : Bool
  pub listens : Bool
  pub sudo : Option (ℕ × ℕ)

-- The modes are 0666 and 0660 in octal.
unfoldable pub give_access : Option (ℕ × ℕ) → List Action
give_access none = change_mode 438 ∷ []
give_access (some (uid, gid)) = change_owner uid gid ∷ change_mode 432 ∷ []

unfoldable pub ipc_server_create : CreateEnv → Option IpcServer × List Action
ipc_server_create env = elim env.opened [
  | none ↦ (none, unlink_socket ∷ [])
  | some fd ↦
      let start = unlink_socket ∷ bind_socket fd ∷ [] in
      if not env.binds
      then (none, start ++ (close_socket fd ∷ []))
      else (let ready = start ++ (give_access env.sudo ++ (listen_on fd ∷ [])) in
          if not env.listens then (none, ready ++ (close_socket fd ∷ unlink_socket ∷ [])) else (
            some (record {
              listen_fd = fd;
              client_fds = replicate max_clients none;
              num_clients = pos 0;
            }),
            ready ++ (nonblocking fd ∷ []),
          ))
]
