-- ===== src/Poll/Invariant.antt =====
-- What holds of the poll server's state between two rounds of its loop, and that each change of the
-- state keeps it.
use scalable_server.Prelude.{
  inr, inl, Bool-cases, ◌&&◌, not, set-get_or, get_or-map, sym, occupied-le-length, ◌≤◌,
  occupied-set_used, refl, is_zero, ap, map-set, ℤ, occupied-set_free, suc, set, Bool, List, ltb,
  ◌∙◌, if◌then◌else◌, pos, occupied, length-set, ◌∷◌, map, arith, ◌≡◌, get_or, ◌<◌, length,
}
use scalable_server.Os.{
  report, report-events, report-fds, is_pollin, Pollfd, no_events, only_pollin, no_pollfd,
  SockaddrIn, Events,
}
use Prim.Native.Nat.{suc, ℕ}
use scalable_server.Poll.State.{
  set_listen, Server, max_connections, get_conn_index, save_connection, forget_connection,
  reset_revents, listening, zero_state, increment, decrement,
}
use scalable_server.Prelude.{true, false, [], get_or_head-set}
use scalable_server.Poll.Index.{IsFirstFree, get_conn_index-IsFirstFree}

abbrev pub listen_events : Server → Events
listen_events s = (get_or s.pollfds 0 no_pollfd).events

-- The pollfds watch exactly the listening socket and the clients of the state object; the count of
-- connections is the number of clients; the listening socket is polled for input just while there is
-- room.
pub record Inv (s : Server) : Type 0 where
  pub fds_len : length s.client_fd ≡ max_connections
  pub watched : map (λ p. p.fd) s.pollfds ≡ s.listen_fd ∷ s.client_fd
  pub counted : s.num_connections ≡ occupied s.client_fd
  pub listens :
      listen_events s ≡ (if ltb s.num_connections max_connections then only_pollin else no_events)

fds-set_slot :
    (ps : List Pollfd) (i : ℕ) (p : Pollfd) (l : ℤ) (cs : List ℤ)
    → map (λ p. p.fd) ps ≡ l ∷ cs
    → map (λ p. p.fd) (set ps (suc i) p) ≡ l ∷ set cs i p.fd
fds-set_slot [] i p l cs h = cc
fds-set_slot (q ∷ ps) i p l cs h =
    map-set (λ (p : Pollfd). p.fd) (q ∷ ps) (suc i) p ∙ ap (λ xs. set xs (suc i) p.fd) h

-- Whether or not the events of the listening pollfd are set, the descriptors stay.
fds-set_listen :
    (b : Bool) (e : Events) (ps : List Pollfd)
    → map (λ p. p.fd) (if b then set_listen e ps else ps) ≡ map (λ p. p.fd) ps
fds-set_listen true e [] = refl
fds-set_listen true e (p ∷ ps) = refl
fds-set_listen false e ps = refl

events-set_listen :
    (b : Bool) (e : Events) (ps : List Pollfd) (l : ℤ) (cs : List ℤ)
    → map (λ p. p.fd) ps ≡ l ∷ cs
    → (get_or (if b then set_listen e ps else ps) 0 no_pollfd).events
      ≡ (if b then e else (get_or ps 0 no_pollfd).events)
events-set_listen true e [] l cs h = cc
events-set_listen true e (p ∷ ps) l cs h = refl
events-set_listen false e ps l cs h = refl

increment_lem : (n : ℕ) → n < max_connections → increment n ≡ suc n
increment_lem n h = omega arith

decrement_lem : (n : ℕ) → n < max_connections → decrement (suc n) ≡ n
decrement_lem n h = omega arith

-- A connection accepted on a descriptor other than 0, while there is room, keeps the invariant: it goes to
-- a free slot, is counted and watched, and the listening socket is turned off when the last slot is taken.
pub save_connection-Inv :
    (s : Server) (new_cfd : ℕ) (addr : SockaddrIn)
    → Inv s
    → s.num_connections < max_connections
    → 0 < new_cfd
    → Inv (save_connection (get_conn_index s.client_fd) new_cfd addr s)
unfolding save_connection
save_connection-Inv s n addr v room positive = record {
  fds_len = length-set s.client_fd i (pos n) ∙ v.fds_len;
  watched = fds-set_listen _ no_events _ ∙ slot;
  counted = omega (arith, taken, v.counted);
  listens = events-set_listen _ no_events _ _ _ slot ∙ ground (arith, head);
}
  where
    i : ℕ
    i = get_conn_index s.client_fd

    first : IsFirstFree s.client_fd i
    first = get_conn_index-IsFirstFree s.client_fd (omega (arith, v.fds_len, v.counted))

    taken : occupied (set s.client_fd i (pos n)) ≡ suc (occupied s.client_fd)
    taken = occupied-set_free s.client_fd i (pos n) (first.in_range) first.free (ground arith)

    slot :
        map
          (λ p. p.fd)
          (set s.pollfds
            (suc i)
            (record (get_or s.pollfds (suc i) no_pollfd) { fd = pos n; events = only_pollin }))
        ≡ s.listen_fd ∷ set s.client_fd i (pos n)
    slot = fds-set_slot s.pollfds i _ s.listen_fd s.client_fd v.watched

    head :
        (get_or
          (set s.pollfds
            (suc i)
            (record (get_or s.pollfds (suc i) no_pollfd) { fd = pos n; events = only_pollin }))
          0
          no_pollfd).events
        ≡ only_pollin
    head =
        ap (λ (p : Pollfd). p.events) (get_or_head-set s.pollfds i _ no_pollfd)
        ∙ ground (arith, v.listens)

-- The test before POLLIN is turned on again leaves it on just while there is room.
relisten :
    (e : Events) (m c : ℕ)
    → suc c ≡ m
    → m ≤ max_connections
    → e ≡ (if ltb m max_connections then only_pollin else no_events)
    → (if not (is_pollin e) && ltb c max_connections then only_pollin else e)
      ≡ (if ltb c max_connections then only_pollin else no_events)
unfolding is_pollin
relisten e m c a b h = elim (Bool-cases (ltb m max_connections)) [
  | inl room ↦ let on : e ≡ only_pollin = h ∙ rw room refl in rw on (ground arith)
  | inr full ↦ let off : e ≡ no_events = h ∙ rw full refl in rw off (ground arith)
]

-- Removing the connection of a taken slot keeps the invariant: the slot is free again, the connection is
-- no longer counted or watched, and the listening socket is polled for input again.
pub forget_connection-Inv :
    (s : Server) (i : ℕ)
    → Inv s
    → i < max_connections
    → is_zero (get_or s.client_fd i (pos 0)) ≡ false
    → Inv (forget_connection i s)
unfolding forget_connection
forget_connection-Inv s i v lt used = record {
  fds_len = length-set s.client_fd i (pos 0) ∙ v.fds_len;
  watched = fds-set_listen _ only_pollin _ ∙ slot;
  counted = count;
  listens =
      events-set_listen _ only_pollin _ _ _ slot
      ∙ relisten _ s.num_connections _ (omega (arith, freed, count, v.counted))
          (omega (arith, small, v.counted)) (head ∙ v.listens);
}
  where
    freed : suc (occupied (set s.client_fd i (pos 0))) ≡ occupied s.client_fd
    freed = occupied-set_used s.client_fd i (omega (arith, v.fds_len)) used

    small : occupied s.client_fd ≤ max_connections
    small = omega (arith, occupied-le-length s.client_fd, v.fds_len)

    count : decrement s.num_connections ≡ occupied (set s.client_fd i (pos 0))
    count = omega (arith, freed, small, v.counted)

    slot :
        map (λ p. p.fd) (set s.pollfds (suc i) no_pollfd) ≡ s.listen_fd ∷ set s.client_fd i (pos 0)
    slot = fds-set_slot s.pollfds i _ s.listen_fd s.client_fd v.watched

    head : (get_or (set s.pollfds (suc i) no_pollfd) 0 no_pollfd).events ≡ listen_events s
    head = ap (λ (p : Pollfd). p.events) (get_or_head-set s.pollfds i no_pollfd no_pollfd)

pub reset_revents-Inv : (s : Server) (i : ℕ) → Inv s → Inv (reset_revents (suc i) s)
unfolding reset_revents
reset_revents-Inv s i v = record {
  fds_len = v.fds_len;
  watched = same ∙ v.watched;
  counted = v.counted;
  listens = ap (λ (p : Pollfd). p.events) (get_or_head-set s.pollfds i _ no_pollfd) ∙ v.listens;
}
  where
    f : Pollfd → ℤ
    f p = p.fd

    same :
        map
          (λ p. p.fd)
          (set s.pollfds
            (suc i)
            (record (get_or s.pollfds (suc i) no_pollfd) { revents = no_events }))
        ≡ map (λ p. p.fd) s.pollfds
    same =
        map-set f s.pollfds (suc i) _
        ∙ ap (set (map f s.pollfds) (suc i)) (sym (get_or-map f s.pollfds (suc i) no_pollfd))
        ∙ set-get_or (map f s.pollfds) (suc i) (pos 0)

pub report-Inv :
    (s : Server) (rs : List Events) → Inv s → Inv (record s { pollfds = report rs s.pollfds })
report-Inv s rs v = record {
  fds_len = v.fds_len;
  watched = report-fds rs s.pollfds ∙ v.watched;
  counted = v.counted;
  listens = report-events rs s.pollfds ∙ v.listens;
}

-- The state in which the server starts to run, listening on any descriptor, has the invariant.
pub listening-Inv : (fd : ℤ) → Inv (listening (record zero_state { listen_fd = fd }))
unfolding listening occupied
listening-Inv fd = record { fds_len = refl; watched = refl; counted = refl; listens = refl }
