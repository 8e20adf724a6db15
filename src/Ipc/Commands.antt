-- ===== src/Ipc/Commands.antt =====
-- The command that `ipc_server_poll` returns.
use android_usb_tether_macos.Wire.{Bytes}
use android_usb_tether_macos.Ipc.{
  read_clients, command_of, ReadResult, ipc_server_poll, open_clients, IpcServer, received,
  c_string, contains, accept_client, disconnected, stop_word, ipc_buf_size, ipc_cmd_none,
  ipc_cmd_stop, would_block, disable_word, failed, ipc_cmd_disable, enable_word, ipc_cmd_enable,
  dec,
}
use android_usb_tether_macos.Prelude.{
  ℕ, ◌∷◌, [], none, some, List, ◌≡◌, Option, ◌≤◌, All, ℤ, if◌then◌else◌, take, arith, ◌-◌,
  Option-cases, inl, inr, Bool, refl, ap, ◌∙◌,
}

-- The command in a line, if there is one: stop before disable before enable.
abbrev pub command_in : Bytes → Option ℕ
command_in text =
    if contains stop_word text
    then some ipc_cmd_stop
    else if contains disable_word text
    then some ipc_cmd_disable
    else if contains enable_word text
    then some ipc_cmd_enable
    else none

abbrev pub command_read : ReadResult → Option ℕ
command_read (received buf) = command_in (c_string (take (ipc_buf_size - 1) buf))
command_read disconnected = none
command_read would_block = none
command_read failed = none

-- The commands of the clients, in the order of their slots.
abbrev pub commands : (ℕ → ReadResult) → List ℕ → List ℕ
commands read [] = []
commands read (fd ∷ fds) = elim (command_read (read fd)) [
  | none ↦ commands read fds
  | some c ↦ c ∷ commands read fds
]

abbrev pub last_or : ℕ → List ℕ → ℕ
last_or first [] = first
last_or first (c ∷ cs) = last_or c cs

command_of_lem :
    (buf : Bytes) (requested : ℕ)
    → command_of buf requested ≡ elim (command_in (c_string buf)) [ none ↦ requested | some c ↦ c ]
unfolding command_of
command_of_lem buf requested = ground arith

module _ (read : ℕ → ReadResult) (fd : ℕ) (fds : List ℕ) where
  commands-quiet : command_read (read fd) ≡ none → commands read (fd ∷ fds) ≡ commands read fds
  commands-quiet e =
      ap (λ r. elim r [ none ↦ commands read fds | some c ↦ c ∷ commands read fds ]) e

  commands-asks :
      (c : ℕ) → command_read (read fd) ≡ some c → commands read (fd ∷ fds) ≡ c ∷ commands read fds
  commands-asks c e =
      ap (λ r. elim r [ none ↦ commands read fds | some d ↦ d ∷ commands read fds ]) e

read_clients_command :
    (read : ℕ → ReadResult) (slots : List (Option ℕ)) (count : ℤ) (requested : ℕ)
    → (read_clients read slots count requested).3
      ≡ last_or requested (commands read (open_clients slots))
unfolding read_clients open_clients
read_clients_command read [] count requested = refl
read_clients_command read (none ∷ slots) count requested =
    read_clients_command read slots count requested
read_clients_command read (some fd ∷ slots) count requested =
    go (read fd) (λ c r. read_clients_command read slots c r) refl
  where
    go :
        (r : ReadResult)
        → ((c : ℤ) (now : ℕ)
            → (read_clients read slots c now).3 ≡ last_or now (commands read (open_clients slots)))
        → read fd ≡ r
        → (read_clients read (some fd ∷ slots) count requested).3
          ≡ last_or requested (commands read (fd ∷ open_clients slots))
    go (received buf) ih q =
        let line = take (ipc_buf_size - 1) buf in
        elim (Option-cases (command_in (c_string line))) [
          | inl quiet ↦
              rw
                (
                  commands-quiet read fd (open_clients slots) (ap command_read q ∙ quiet),
                  q,
                  read_clients,
                  command_of_lem line requested,
                  quiet,
                )
                (ih count requested)
          | inr (c, asks) ↦
              rw
                (
                  commands-asks read fd (open_clients slots) c (ap command_read q ∙ asks),
                  q,
                  read_clients,
                  command_of_lem line requested,
                  asks,
                )
                (ih count c)
        ]
    go disconnected ih q =
        rw (commands-quiet read fd (open_clients slots) (ap command_read q), q, read_clients)
          (ih (dec count) requested)
    go would_block ih q =
        rw (commands-quiet read fd (open_clients slots) (ap command_read q), q, read_clients)
          (ih count requested)
    go failed ih q =
        rw (commands-quiet read fd (open_clients slots) (ap command_read q), q, read_clients)
          (ih (dec count) requested)

last_or_small : (first : ℕ) (cs : List ℕ) → first ≤ 3 → All (λ c. c ≤ 3) cs → last_or first cs ≤ 3
last_or_small first [] h all = h
last_or_small first (c ∷ cs) h (k, all) = last_or_small c cs k all

chosen_small :
    (a b d : Bool) (c : ℕ)
    → (if a
        then some ipc_cmd_stop
        else if b
        then some ipc_cmd_disable
        else if d
        then some ipc_cmd_enable
        else none)
      ≡ some c
    → c ≤ 3
chosen_small a b d c e = ground arith

command_read_small : (r : ReadResult) (c : ℕ) → command_read r ≡ some c → c ≤ 3
command_read_small (received buf) c e =
    let text = c_string (take (ipc_buf_size - 1) buf) in
    chosen_small (contains stop_word text) (contains disable_word text) (contains enable_word text)
      c e
command_read_small disconnected c e = ground arith
command_read_small would_block c e = ground arith
command_read_small failed c e = ground arith

commands_small : (read : ℕ → ReadResult) (fds : List ℕ) → All (λ c. c ≤ 3) (commands read fds)
commands_small read [] = tt
commands_small read (fd ∷ fds) = elim (Option-cases (command_read (read fd))) [
  | inl quiet ↦ rw (commands-quiet read fd fds quiet) (commands_small read fds)
  | inr (c, asks) ↦
      rw (commands-asks read fd fds c asks)
        (command_read_small (read fd) c asks, commands_small read fds)
]

-- A poll returns the command of the last slot whose client sent one, among the clients that are there
-- once a waiting connection was accepted, and 0 if none did; a line with several words counts as stop
-- before disable before enable. The result is one of the codes 0 to 3. The comment of include/ipc.h promises
-- another thing, 1 if a stop command was received and 0 otherwise: a disable gives 2, an enable 3, and a
-- stop that a client in a later slot follows with another command is not returned.
pub ipc_server_poll_command :
    (accepted : Option ℕ) (read : ℕ → ReadResult) (srv : IpcServer)
    → let (command, _, _) = ipc_server_poll accepted read srv in
      let clients = open_clients (accept_client accepted srv).0.client_fds in
      (command ≡ last_or ipc_cmd_none (commands read clients)) × (command ≤ 3)
unfolding ipc_server_poll
ipc_server_poll_command accepted read srv =
    let (mid, _) = accept_client accepted srv in
    let e = read_clients_command read mid.client_fds mid.num_clients ipc_cmd_none in
    (
      e,
      rw e (
          last_or_small ipc_cmd_none (commands read (open_clients mid.client_fds)) (omega arith)
            (commands_small read (open_clients mid.client_fds))),
    )
