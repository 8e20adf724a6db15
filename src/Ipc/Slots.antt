-- ===== src/Ipc/Slots.antt =====
-- The bookkeeping of src/ipc.c: the count of the clients, and what becomes of every descriptor.
use android_usb_tether_macos.Ipc.{
  read_clients, IpcServer, take_slot, open_clients, ReadResult, max_clients, dec, command_of,
  ipc_buf_size, accept_client, ipc_server_poll, received, ipc_cmd_none, inc, disconnected,
  would_block, failed,
}
use android_usb_tether_macos.Prelude.{
  ℕ, List, ◌++◌, length, Option, ◌≡◌, ◌+◌, some, pos, ℤ, ◌∷◌, [], arith, if◌then◌else◌, ◌==◌, refl,
  none, take, ◌-◌, ap, suc, ◌∙◌, inl, ◌⊎◌, inr, sym,
}

abbrev pub occurrences : ℕ → List ℕ → ℕ
occurrences x [] = 0
occurrences x (y ∷ ys) = (if x == y then 1 else 0) + occurrences x ys

occurrences-append :
    (x : ℕ) (xs ys : List ℕ) → occurrences x (xs ++ ys) ≡ occurrences x xs + occurrences x ys
occurrences-append x [] ys = omega arith
occurrences-append x (y ∷ xs) ys = omega (arith, occurrences-append x xs ys)

-- The server keeps its four slots and counts those that are taken.
pub record IsConsistent (srv : IpcServer) : Type 0 where
  pub four_slots : length srv.client_fds ≡ max_clients
  pub counted : srv.num_clients ≡ pos (length (open_clients srv.client_fds))

-- What the search for a slot gives for the slots that it was given.
abbrev Taken : ℕ → List (Option ℕ) → Option (List (Option ℕ)) → Type 0
Taken fd slots none = Unit {0}
Taken fd slots (some slots') =
    (length slots' ≡ length slots)
    × (length (open_clients slots') ≡ length (open_clients slots) + 1)
    × ((x : ℕ) → occurrences x (open_clients slots') ≡ occurrences x (fd ∷ open_clients slots))

take_slot-Taken : (fd : ℕ) (slots : List (Option ℕ)) → Taken fd slots (take_slot fd slots)
unfolding take_slot open_clients
take_slot-Taken fd [] = tt
take_slot-Taken fd (none ∷ slots) = (refl, omega arith, λ x. refl)
take_slot-Taken fd (some other ∷ slots) = go (take_slot fd slots) (take_slot-Taken fd slots)
  where
    go :
        (r : Option (List (Option ℕ)))
        → Taken fd slots r
        → Taken fd
            (some other ∷ slots)
            (elim r [ none ↦ none | some slots' ↦ some (some other ∷ slots') ])
    go none t = tt
    go (some slots') (size, more, same) =
        (ap suc size, omega (arith, more), λ x. omega (arith, same x))

one_less : (l n : ℕ) (count : ℤ) → count ≡ pos (suc l + n) → dec count ≡ pos (l + n)
one_less l n count e =
    let shape : suc l + n ≡ suc (l + n) = omega arith in ap dec (e ∙ ap pos shape)

one_more : (l n : ℕ) (count : ℤ) → count ≡ pos (suc l + n) → count ≡ pos (l + suc n)
one_more l n count e = let shape : suc l + n ≡ l + suc n = omega arith in e ∙ ap pos shape

-- A client stays in its slot, or it is closed and the slot freed.
read_clients-some :
    (read : ℕ → ReadResult) (fd : ℕ) (slots : List (Option ℕ)) (count : ℤ) (requested : ℕ)
    → ((now : ℕ) × (let (slots', count', closed, last) = read_clients read slots count now in
          read_clients read (some fd ∷ slots) count requested
          ≡ (some fd ∷ slots', count', closed, last)))
      ⊎ (let (slots', count', closed, last) = read_clients read slots (dec count) requested in
          read_clients read (some fd ∷ slots) count requested
          ≡ (none ∷ slots', count', fd ∷ closed, last))
unfolding read_clients
read_clients-some read fd slots count requested = go (read fd) refl
  where
    go :
        (r : ReadResult)
        → read fd ≡ r
        → ((now : ℕ) × (let (slots', count', closed, last) = read_clients read slots count now in
              read_clients read (some fd ∷ slots) count requested
              ≡ (some fd ∷ slots', count', closed, last)))
          ⊎ (let (slots', count', closed, last) = read_clients read slots (dec count) requested in
              read_clients read (some fd ∷ slots) count requested
              ≡ (none ∷ slots', count', fd ∷ closed, last))
    go (received buf) q =
        inl (command_of (take (ipc_buf_size - 1) buf) requested, rw (q, read_clients) refl)
    go disconnected q = inr (rw (q, read_clients) refl)
    go would_block q = inl (requested, rw (q, read_clients) refl)
    go failed q = inr (rw (q, read_clients) refl)

-- `n` clients stand in the slots before these.
abbrev Counted : List (Option ℕ) → ℕ → List (Option ℕ) × ℤ × List ℕ × ℕ → Type 0
Counted slots n (slots', count', closed, last) =
    (length slots' ≡ length slots) × (count' ≡ pos (length (open_clients slots') + n))

read_clients-Counted :
    (read : ℕ → ReadResult) (slots : List (Option ℕ)) (n : ℕ) (count : ℤ) (requested : ℕ)
    → count ≡ pos (length (open_clients slots) + n)
    → Counted slots n (read_clients read slots count requested)
unfolding read_clients open_clients
read_clients-Counted read [] n count requested e = (refl, e)
read_clients-Counted read (none ∷ slots) n count requested e =
    let (size, counted) = read_clients-Counted read slots n count requested e in
    (ap suc size, counted)
read_clients-Counted read (some fd ∷ slots) n count requested e =
    let l = length (open_clients slots) in
    elim (read_clients-some read fd slots count requested) [
      | inl (now, stays) ↦
          let (size, counted) =
            read_clients-Counted read slots (suc n) count now (one_more l n count e) in
          rw stays (ap suc size, counted ∙ ap pos (omega arith))
      | inr leaves ↦
          let (size, counted) =
            read_clients-Counted read slots n (dec count) requested (one_less l n count e) in
          rw leaves (ap suc size, counted)
    ]

read_clients_kept :
    (read : ℕ → ReadResult) (slots : List (Option ℕ)) (count : ℤ) (requested x : ℕ)
    → let (slots', _, closed, _) = read_clients read slots count requested in
      occurrences x (open_clients slots') + occurrences x closed
      ≡ occurrences x (open_clients slots)
unfolding read_clients open_clients
read_clients_kept read [] count requested x = refl
read_clients_kept read (none ∷ slots) count requested x =
    read_clients_kept read slots count requested x
read_clients_kept read (some fd ∷ slots) count requested x =
    elim (read_clients-some read fd slots count requested) [
      | inl (now, stays) ↦ rw stays (omega (arith, read_clients_kept read slots count now x))
      | inr leaves ↦ rw leaves (omega (arith, read_clients_kept read slots (dec count) requested x))
    ]

abbrev pub accepted_fds : Option ℕ → List ℕ
accepted_fds none = []
accepted_fds (some fd) = fd ∷ []

accept_client_lem :
    (accepted : Option ℕ) (srv : IpcServer)
    → IsConsistent srv
    → let (srv', turned_away) = accept_client accepted srv in
      IsConsistent srv'
      × (srv'.listen_fd ≡ srv.listen_fd)
      × ((x : ℕ)
          → occurrences x (open_clients srv'.client_fds) + occurrences x turned_away
            ≡ occurrences x (accepted_fds accepted ++ open_clients srv.client_fds))
unfolding accept_client
accept_client_lem none srv c = (c, refl, λ x. omega arith)
accept_client_lem (some fd) srv c =
    go (take_slot fd srv.client_fds) (take_slot-Taken fd srv.client_fds) refl
  where
    go :
        (r : Option (List (Option ℕ)))
        → Taken fd srv.client_fds r
        → take_slot fd srv.client_fds ≡ r
        → let (srv', turned_away) = accept_client (some fd) srv in
          IsConsistent srv'
          × (srv'.listen_fd ≡ srv.listen_fd)
          × ((x : ℕ)
              → occurrences x (open_clients srv'.client_fds) + occurrences x turned_away
                ≡ occurrences x (fd ∷ open_clients srv.client_fds))
    go none t q = rw (q, accept_client) (c, refl, λ x. omega arith)
    go (some slots') (size, more, same) q =
        rw (q, accept_client)
          (
            record {
              four_slots = size ∙ c.four_slots;
              counted = ap inc c.counted ∙ ap pos (sym more);
            },
            refl,
            λ x. omega (arith, same x),
          )

-- One poll, whatever connection waits and whatever the reads give: the server keeps its four slots and
-- counts exactly the clients in them, and no descriptor is lost or invented: each that was open before,
-- or was accepted, is still in a slot or was closed, as often as it came in.
pub ipc_server_poll_keeps :
    (accepted : Option ℕ) (read : ℕ → ReadResult) (srv : IpcServer)
    → IsConsistent srv
    → let (_, srv', closed) = ipc_server_poll accepted read srv in
      IsConsistent srv'
      × (srv'.listen_fd ≡ srv.listen_fd)
      × ((x : ℕ)
          → occurrences x (open_clients srv'.client_fds) + occurrences x closed
            ≡ occurrences x (accepted_fds accepted ++ open_clients srv.client_fds))
unfolding ipc_server_poll
ipc_server_poll_keeps accepted read srv c =
    let (mid, turned_away) = accept_client accepted srv in
    let (ok, same_socket, kept) = accept_client_lem accepted srv c in
    let (size, counted) =
      read_clients-Counted read mid.client_fds 0 mid.num_clients ipc_cmd_none
        (ok.counted ∙ ap pos (omega arith)) in
    let closed = (read_clients read mid.client_fds mid.num_clients ipc_cmd_none).2 in
    (
      record { four_slots = size ∙ ok.four_slots; counted = counted ∙ ap pos (omega arith) },
      same_socket,
      λ x. omega (
        arith,
        kept x,
        read_clients_kept read mid.client_fds mid.num_clients ipc_cmd_none x,
        occurrences-append x turned_away closed,
      ),
    )
