-- ===== src/Ipc/Runs.antt =====
-- src/ipc.c on concrete clients.
use android_usb_tether_macos.Ipc.Start.{Started, closes, held, ipc_server_create_lem}
use android_usb_tether_macos.Ipc.Commands.{last_or, commands, ipc_server_poll_command}
use android_usb_tether_macos.Ipc.Slots.{
  IsConsistent, occurrences, accepted_fds, ipc_server_poll_keeps,
}
use android_usb_tether_macos.Ipc.{
  ipc_server_poll, ReadResult, open_clients, IpcServer, accept_client, take_slot, received,
  read_clients, disable_word, ipc_cmd_none, command_of, ipc_cmd_stop, disconnected, stop_word,
  would_block, CreateEnv, ipc_server_create,
}
use android_usb_tether_macos.Prelude.{
  ℕ, if◌then◌else◌, some, pos, refl, ◌==◌, ◌≡◌, ◌∷◌, none, [], ◌+◌, ◌++◌, ◌≤◌, true, false,
}

-- Two clients in four slots.
abbrev two_clients : IpcServer
two_clients = record {
  listen_fd = 3;
  client_fds = some 5 ∷ none ∷ some 7 ∷ none ∷ [];
  num_clients = pos 2;
}

two_clients-IsConsistent : IsConsistent two_clients
unfolding open_clients
two_clients-IsConsistent = record { four_slots = refl; counted = refl }

-- Client 5 asks to disable, client 7 is gone, and the one that was just accepted asks to stop.
abbrev reads : ℕ → ReadResult
reads fd =
    if fd == 5
    then received (disable_word ++ (10 ∷ []))
    else if fd == 7
    then disconnected
    else if fd == 9
    then received (123 ∷ (stop_word ++ (125 ∷ [])))
    else would_block

poll_run : ipc_server_poll (some 9) reads two_clients ≡ (
  ipc_cmd_stop,
  record { listen_fd = 3; client_fds = some 5 ∷ some 9 ∷ none ∷ none ∷ []; num_clients = pos 2 },
  7 ∷ [],
)
unfolding ipc_server_poll accept_client take_slot read_clients command_of
poll_run = refl

ipc_server_poll_keeps_example :
    let (_, srv', closed) = ipc_server_poll (some 9) reads two_clients in
    IsConsistent srv'
    × (srv'.listen_fd ≡ 3)
    × ((x : ℕ)
        → occurrences x (open_clients srv'.client_fds) + occurrences x closed
          ≡ occurrences x (accepted_fds (some 9) ++ open_clients two_clients.client_fds))
ipc_server_poll_keeps_example =
    ipc_server_poll_keeps (some 9) reads two_clients two_clients-IsConsistent

ipc_server_poll_command_example :
    let (command, _, _) = ipc_server_poll (some 9) reads two_clients in
    let clients = open_clients (accept_client (some 9) two_clients).0.client_fds in
    (command ≡ last_or ipc_cmd_none (commands reads clients)) × (command ≤ 3)
ipc_server_poll_command_example = ipc_server_poll_command (some 9) reads two_clients

abbrev no_listen : CreateEnv
no_listen = record { opened = some 3; binds = true; listens = false; sudo = some (501, 20) }

ipc_server_create_lem_example :
    let (out, actions) = ipc_server_create no_listen in
    Started out × (closes actions ++ held out ≡ 3 ∷ [])
ipc_server_create_lem_example = ipc_server_create_lem no_listen
