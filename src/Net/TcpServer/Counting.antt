-- ===== src/Net/TcpServer/Counting.antt =====
-- The clients of a server over any sequence of events of its watcher.
use read_mail_really_fast.Prelude.{
  ℕ, ◌+◌, ◌-◌, ◌%◌, ◌^◌, ◌<◌, ◌≡◌, refl, ap, ◌∙◌, Bool, true, false, not, ◌&&◌, List, [], ◌∷◌,
  arith, Bool-cases, inl, inr, Bytes, take, Option, none, some, if◌then◌else◌,
}
use read_mail_really_fast.Prelude.Int.{ℤ, pos, negsuc}
use read_mail_really_fast.Net.AsyncFd.{auto_fd, destruct, reset, close}
use read_mail_really_fast.Net.Exception.{Exception}
use read_mail_really_fast.Net.AsyncServer.{
  AsyncServer, Served, returned, raised, get_accept_handler, cb_ev,
}
use read_mail_really_fast.Net.SocketAddress.{Sockaddr}
use read_mail_really_fast.Net.TcpClient.{
  Bits, no_error, TcpClient, destruct_client, accepted_client,
}
use read_mail_really_fast.Net.TcpServer.{
  TcpServer, Surroundings, end_announcement, client_destructed_cb, await_raw_socket_incomming,
  on_event,
}

-- An event of the watcher, with the answer that `accept` gives if it is called.
pub record Event : Type 0 where
  pub bits : Bits
  pub answer : ℤ × Sockaddr

-- The state after a call, whichever way it ended.
abbrev pub settle : {S : Type 0} → Served S → S
settle (returned s) = s
settle (raised e s) = s

pub run : Surroundings → List Event → TcpServer → TcpServer
run r [] s = s
run r (e ∷ es) s = run r es (settle (on_event r e.bits e.answer s))

-- The descriptor that an event accepts, if it does, before those there were.
abbrev pub with_accepted : Event → List ℕ → List ℕ
with_accepted e ns =
    if not e.bits.error && e.bits.reads
    then elim e.answer.0 [ pos n ↦ n ∷ ns | negsuc n ↦ ns ]
    else ns

abbrev pub accepted : List Event → List ℕ → List ℕ
accepted [] ns = ns
accepted (e ∷ es) ns = accepted es (with_accepted e ns)

-- What the listener is given for the descriptor `n` and a peer, with `k` clients before: of what
-- stands behind the port of the peer's address, the first four bytes are printed.
abbrev pub announcement : Surroundings → ℕ → Sockaddr → ℕ → TcpClient × ℕ
announcement r n peer k = (
  accepted_client true (record { fd = pos n }) (r.inet_ntoa (take 4 peer.body))
      (r.ntohs peer.port_field),
  (k + 1) % 2 ^ 32,
)

abbrev pub with_announced : Surroundings → Event → ℕ → List (TcpClient × ℕ) → List (TcpClient × ℕ)
with_announced r e k told =
    if not e.bits.error && e.bits.reads
    then elim e.answer.0 [ pos n ↦ announcement r n e.answer.1 k ∷ told | negsuc n ↦ told ]
    else told

abbrev pub announced_by :
    Surroundings → ℕ → List Event → List (TcpClient × ℕ) → List (TcpClient × ℕ)
announced_by r k [] told = told
announced_by r k (e ∷ es) told = announced_by r k es (with_announced r e k told)

abbrev pub IsListening : TcpServer → Type 0
IsListening s = (s.ss.on_accept ≡ true) × (s.number_of_connected_clients < 2 ^ 32)

-- The state after an event: the same listening socket, the same number, the descriptor closed, the
-- client announced.
abbrev pub IsAfter : Surroundings → Event → TcpServer → TcpServer → Type 0
IsAfter r e s t =
    (t.ss ≡ s.ss)
    × (t.number_of_connected_clients ≡ s.number_of_connected_clients)
    × (t.world.closed ≡ with_accepted e s.world.closed)
    × (t.announced ≡ with_announced r e s.number_of_connected_clients s.announced)

count_back : (n : ℕ) → n < 2 ^ 32 → ((n + 1) % 2 ^ 32 + (2 ^ 32 - 1)) % 2 ^ 32 ≡ n
count_back n h = omega (arith, h)

settle-end_announcement :
    (result : Option Exception) (c : TcpClient) (s : TcpServer)
    → settle (end_announcement result c s)
      ≡ client_destructed_cb no_error (record s { world = destruct_client c s.world })
unfolding end_announcement
settle-end_announcement none c s = refl
settle-end_announcement (some e) c s = refl

abbrev accepting : Bits → Bool
accepting b = not b.error && b.reads

-- An event on which the server accepts, and `accept` answers `x`.
abbrev IsAccepted : Surroundings → ℤ → Sockaddr → TcpServer → TcpServer → Type 0
IsAccepted r x peer s t =
    (t.ss ≡ s.ss)
    × (t.number_of_connected_clients ≡ s.number_of_connected_clients)
    × (t.world.closed ≡ elim x [ pos n ↦ n ∷ s.world.closed | negsuc n ↦ s.world.closed ])
    × (t.announced ≡ elim x [
      | pos n ↦ announcement r n peer s.number_of_connected_clients ∷ s.announced
      | negsuc n ↦ s.announced
    ])

take_address : (bs : Bytes) → take 4 (take 12 bs) ≡ take 4 bs
take_address [] = refl
take_address (a ∷ []) = refl
take_address (a ∷ b ∷ []) = refl
take_address (a ∷ b ∷ c ∷ []) = refl
take_address (a ∷ b ∷ c ∷ d ∷ bs) = refl

await-IsAccepted :
    (r : Surroundings) (x : ℤ) (peer : Sockaddr) (s : TcpServer)
    → s.number_of_connected_clients < 2 ^ 32
    → IsAccepted r x peer s (settle (await_raw_socket_incomming r (x, peer) s.ss s))
unfolding await_raw_socket_incomming client_destructed_cb destruct_client destruct accepted_client
    auto_fd reset close
await-IsAccepted r (negsuc n) peer s h = (refl, refl, refl, refl)
await-IsAccepted r (pos n) peer s h =
    let c =
      accepted_client true (auto_fd (pos n)) (r.inet_ntoa (take 4 (take 12 peer.body)))
        (r.ntohs peer.port_field) in
    let number = (s.number_of_connected_clients + 1) % 2 ^ 32 in
    let t = record s {
      number_of_connected_clients = number;
      announced = (c, number) ∷ s.announced;
    } in
    let e = settle-end_announcement (r.client_listener c) c t in
    (
      ap (λ u. u.ss) e,
      ap (λ u. u.number_of_connected_clients) e ∙ count_back s.number_of_connected_clients h,
      ap (λ u. u.world.closed) e,
      ap (λ u. u.announced) e
          ∙ ap
              (λ t.
                (
                  accepted_client true (auto_fd (pos n)) (r.inet_ntoa t) (r.ntohs peer.port_field),
                  number,
                )
                ∷ s.announced)
              (take_address peer.body),
    )

cb_ev_accepts :
    {S : Type 0} (ah : AsyncServer → S → Served S) (ss : AsyncServer) (b : Bits) (s : S)
    → b.error ≡ false
    → b.reads ≡ true
    → ss.on_accept ≡ true
    → cb_ev ah ss b s ≡ ah ss s
unfolding cb_ev get_accept_handler
cb_ev_accepts ah ss b s f t h = simp (f, t, h)

on_event-IsAfter :
    (r : Surroundings) (e : Event) (s : TcpServer)
    → IsListening s
    → IsAfter r e s (settle (on_event r e.bits e.answer s))
unfolding on_event cb_ev
on_event-IsAfter r e s h =
    let (x, peer) = e.answer in
    let accepted_case = await-IsAccepted r x peer s h.1 in
    elim (Bool-cases e.bits.error) [
      | inl t ↦ rw t (refl, refl, refl, refl)
      | inr f ↦ elim (Bool-cases e.bits.reads) [
        | inl t ↦
            rw (cb_ev_accepts (await_raw_socket_incomming r e.answer) s.ss e.bits s f t h.0)
              (rw (f, t) accepted_case)
        | inr g ↦ rw (f, g) (refl, refl, refl, refl)
      ]
    ]

-- From a server that has its handler and counts fewer than 2 ^ 32 clients, over any sequence of
-- events, whatever `accept` answers and whether or not the listener throws: each descriptor that
-- `accept` gave is closed once and in order, and no other is, and the number of connected clients
-- is the one of the start.
pub run_closes_clients :
    (r : Surroundings) (es : List Event) (s : TcpServer)
    → IsListening s
    → ((run r es s).world.closed ≡ accepted es s.world.closed)
      × ((run r es s).number_of_connected_clients ≡ s.number_of_connected_clients)
unfolding run
run_closes_clients r [] s h = (refl, refl)
run_closes_clients r (e ∷ es) s h =
    let t = settle (on_event r e.bits e.answer s) in
    let (same_ss, same_number, closes, told) = on_event-IsAfter r e s h in
    let again = run_closes_clients r es t (rw (same_ss, same_number) h) in
    (again.0 ∙ ap (accepted es) closes, again.1 ∙ same_number)

-- From such a server, over any sequence of events, whatever `accept` answers and whether or not the
-- listener throws: the listener was given one client for each descriptor that `accept` gave, in
-- order, and no other. The client has the descriptor and the peer's port, the number of clients told
-- with it is one more than at the start, and its address is printed from the four bytes behind the
-- port: for a peer of the IPv6 server these are the flow information, not the address.
pub run_announces :
    (r : Surroundings) (es : List Event) (s : TcpServer)
    → IsListening s
    → (run r es s).announced ≡ announced_by r s.number_of_connected_clients es s.announced
unfolding run
run_announces r [] s h = refl
run_announces r (e ∷ es) s h =
    let t = settle (on_event r e.bits e.answer s) in
    let (same_ss, same_number, closes, told) = on_event-IsAfter r e s h in
    run_announces r es t (rw (same_ss, same_number) h)
    ∙ ap (λ k. announced_by r k es t.announced) same_number
    ∙ ap (announced_by r s.number_of_connected_clients es) told
