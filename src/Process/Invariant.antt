-- ===== src/Process/Invariant.antt =====
-- What holds of the parent's pollfds between two rounds of its loop, and that each change keeps it.
mod Defs
pub use Defs.*
use scalable_server.Os.{
  report-events, report-fds, length-report, report, is_pollin, no_events, only_pollin, no_pollfd,
  SockaddrIn, Events, Pollfd,
}
use Prim.Native.Nat.{suc, ℕ}
use scalable_server.Prelude.{
  set-get_or, zero, get_or-map, leb, is_zero-negate, ◌&&◌, occupied-le-length, sym, negate, not,
  get_or_head-set, ◌≤◌, eqb_ℤ, occupied-set_used, occupied-set_free, inr, inl, map-set, false,
  Bool-cases, true, refl, ◌∙◌, arith, length-set, ap, [], pos, ltb, ◌+◌, is_zero, suc, ◌∷◌, ◌≡◌,
  map, if◌then◌else◌, set, get_or, drop, ℤ, occupied, length, ◌<◌, Bool, List, ℕ,
}
use scalable_server.Process.State.{
  reset_revents, disable, decrement, forget_connection, reenable, reenable_from, increment,
  pollfds_size, set_listen, max_connections, p_get_pollfd_index, save_connection, ParentStruct,
  pollfd_index_from,
}

saved-Inv :
    (s : ParentStruct) (new_cfd : ℕ) (addr : SockaddrIn) (i : ℕ)
    → Inv s
    → s.num_connections < max_connections
    → 0 < new_cfd
    → IsFree (drop 2 s.pollfds) i
    → Inv (save_connection (suc (suc i)) new_cfd addr s)
unfolding save_connection
saved-Inv s n addr i v room positive found = record {
  pollfds_len = set_listen-length _ no_events _ ∙ len;
  counted =
      omega (arith, taken, v.counted)
      ∙ ap occupied (
          sym (
            set_listen-clients (leb max_connections (increment s.num_connections)) no_events
              (set s.pollfds (suc (suc i)) new)
            ∙ clients-set s.pollfds i new));
  listens =
      set_listen-events _ no_events (set s.pollfds (suc (suc i)) new) (omega (arith, len))
      ∙ ground (arith, head);
}
  where
    new : Pollfd
    new = record (get_or s.pollfds (suc (suc i)) no_pollfd) { fd = pos n; events = only_pollin }

    len : length (set s.pollfds (suc (suc i)) new) ≡ pollfds_size
    len = length-set s.pollfds (suc (suc i)) new ∙ v.pollfds_len

    taken : occupied (set (clients s) i (pos n)) ≡ suc (occupied (clients s))
    taken = occupied-set_free (clients s) i (pos n) found.in_range found.free (ground arith)

    head : (get_or (set s.pollfds (suc (suc i)) new) 0 no_pollfd).events ≡ only_pollin
    head =
        ap (λ (p : Pollfd). p.events) (get_or_head-set s.pollfds (suc i) new no_pollfd)
        ∙ v.listens
        ∙ ground arith

-- A connection that is accepted while there is room goes to a free slot and is counted.
pub save_connection-Inv :
    (s : ParentStruct) (new_cfd : ℕ) (addr : SockaddrIn)
    → Inv s
    → s.num_connections < max_connections
    → 0 < new_cfd
    → Inv (save_connection (p_get_pollfd_index s.pollfds) new_cfd addr s)
unfolding p_get_pollfd_index
save_connection-Inv s n addr v room positive =
    let (i, e, found) =
      pollfd_index_from-IsFree 2 (drop 2 s.pollfds)
        (omega (arith, v.counted, length-clients s v)) in
    let e' : p_get_pollfd_index s.pollfds ≡ suc (suc i) = e ∙ omega arith in
    rw e' (saved-Inv s n addr i v room positive found)

-- The test before POLLIN is turned on again leaves it on just while there is room.
relisten :
    (e : Events) (m c : ℕ)
    → suc c ≡ m
    → m ≤ max_connections
    → e ≡ (if ltb m max_connections then only_pollin else no_events)
    → (if not (is_pollin e) && ltb c max_connections then only_pollin else e)
      ≡ (if ltb c max_connections then only_pollin else no_events)
unfolding is_pollin
relisten e m c a b h = elim (Bool-cases (ltb m max_connections)) [
  | inl room ↦ let on : e ≡ only_pollin = h ∙ rw room refl in rw on (ground arith)
  | inr full ↦ let off : e ≡ no_events = h ∙ rw full refl in rw off (ground arith)
]

-- A client that is removed frees its slot, is no longer counted, and makes room.
pub forget_connection-Inv :
    (s : ParentStruct) (i : ℕ)
    → Inv s
    → i < max_connections
    → is_zero (get_or (clients s) i (pos 0)) ≡ false
    → Inv (forget_connection (suc (suc i)) s)
unfolding forget_connection
forget_connection-Inv s i v lt used = record {
  pollfds_len = set_listen-length _ only_pollin _ ∙ len;
  counted =
      count
      ∙ ap occupied (
          sym (
            set_listen-clients _ only_pollin (set s.pollfds (suc (suc i)) no_pollfd)
            ∙ clients-set s.pollfds i no_pollfd));
  listens =
      set_listen-events _ only_pollin (set s.pollfds (suc (suc i)) no_pollfd) (omega (arith, len))
      ∙ relisten _ s.num_connections _ (omega (arith, freed, count, v.counted))
          (omega (arith, small, v.counted)) (head ∙ v.listens);
}
  where
    len : length (set s.pollfds (suc (suc i)) no_pollfd) ≡ pollfds_size
    len = length-set s.pollfds (suc (suc i)) no_pollfd ∙ v.pollfds_len

    freed : suc (occupied (set (clients s) i (pos 0))) ≡ occupied (clients s)
    freed = occupied-set_used (clients s) i (omega (arith, length-clients s v)) used

    small : occupied (clients s) ≤ max_connections
    small = omega (arith, occupied-le-length (clients s), length-clients s v)

    count : decrement s.num_connections ≡ occupied (set (clients s) i (pos 0))
    count = omega (arith, freed, small, v.counted)

    head : (get_or (set s.pollfds (suc (suc i)) no_pollfd) 0 no_pollfd).events ≡ listen_events s
    head = ap (λ (p : Pollfd). p.events) (get_or_head-set s.pollfds (suc i) no_pollfd no_pollfd)

occupied-reenable_from :
    (fd : ℤ) (ps : List Pollfd)
    → occupied (map (λ p. p.fd) (reenable_from fd ps)) ≡ occupied (map (λ p. p.fd) ps)
unfolding reenable_from occupied
occupied-reenable_from fd [] = refl
occupied-reenable_from fd (p ∷ ps) = elim (Bool-cases (eqb_ℤ p.fd (negate fd))) [
  | inl hit ↦ rw (hit, is_zero-negate p.fd, occupied-reenable_from fd ps) refl
  | inr miss ↦ rw (miss, occupied-reenable_from fd ps) refl
]

length-reenable_from : (fd : ℤ) (ps : List Pollfd) → length (reenable_from fd ps) ≡ length ps
unfolding reenable_from
length-reenable_from fd [] = refl
length-reenable_from fd (p ∷ ps) = ap suc (length-reenable_from fd ps)

-- Whatever number comes over the pipe, enabling pollfds again frees no slot and takes none.
pub reenable-Inv :
    (s : ParentStruct) (fd : ℤ) → Inv s → Inv (record s { pollfds = reenable fd s.pollfds })
unfolding reenable
reenable-Inv s fd v = go s.pollfds v
  where
    go :
        (ps : List Pollfd)
        → Inv (record s { pollfds = ps })
        → Inv (record s { pollfds = reenable fd ps })
    go [] u = absurd (omega (arith, u.pollfds_len))
    go (l ∷ []) u = absurd (omega (arith, u.pollfds_len))
    go (l ∷ q ∷ ps) u = record {
      pollfds_len = omega (arith, length-reenable_from fd ps, u.pollfds_len);
      counted = u.counted ∙ sym (occupied-reenable_from fd ps);
      listens = u.listens;
    }

occupied-set-negate :
    (xs : List ℤ) (i : ℕ) → occupied (set xs i (negate (get_or xs i (pos 0)))) ≡ occupied xs
unfolding occupied
occupied-set-negate [] i = refl
occupied-set-negate (x ∷ xs) zero = rw (is_zero-negate x) refl
occupied-set-negate (x ∷ xs) (suc i) = rw (occupied-set-negate xs i) refl

get_or-drop :
    (ps : List Pollfd) (i : ℕ) → get_or (drop 2 ps) i no_pollfd ≡ get_or ps (suc (suc i)) no_pollfd
get_or-drop [] i = refl
get_or-drop (p ∷ []) i = refl
get_or-drop (p ∷ q ∷ ps) i = refl

-- The descriptor of a client, in its pollfd and among the clients.
pub client_fd :
    (s : ParentStruct) (i : ℕ)
    → (get_or s.pollfds (suc (suc i)) no_pollfd).fd ≡ get_or (clients s) i (pos 0)
client_fd s i = sym (
    get_or-map (λ (p : Pollfd). p.fd) (drop 2 s.pollfds) i no_pollfd
    ∙ ap (λ (p : Pollfd). p.fd) (get_or-drop s.pollfds i))

-- Disabling a client's pollfd frees no slot and takes none.
pub disable-Inv :
    (s : ParentStruct) (i : ℕ)
    → Inv s
    → Inv (record s { pollfds = disable (suc (suc i)) s.pollfds })
unfolding disable
disable-Inv s i v = record {
  pollfds_len = length-set s.pollfds (suc (suc i)) _ ∙ v.pollfds_len;
  counted =
      v.counted
      ∙ sym (
          ap occupied
            (clients-set s.pollfds i _ ∙ ap (λ x. set (clients s) i (negate x)) (client_fd s i))
          ∙ occupied-set-negate (clients s) i);
  listens =
      ap (λ (p : Pollfd). p.events) (get_or_head-set s.pollfds (suc i) _ no_pollfd) ∙ v.listens;
}

pub reset_revents-Inv :
    (s : ParentStruct) (i : ℕ)
    → Inv s
    → Inv (record s { pollfds = reset_revents (suc (suc i)) s.pollfds })
unfolding reset_revents
reset_revents-Inv s i v = record {
  pollfds_len = length-set s.pollfds (suc (suc i)) _ ∙ v.pollfds_len;
  counted =
      v.counted
      ∙ sym (
          ap occupied (
            clients-set s.pollfds i _
            ∙ ap (set (clients s) i) (client_fd s i)
            ∙ set-get_or (clients s) i (pos 0)));
  listens =
      ap (λ (p : Pollfd). p.events) (get_or_head-set s.pollfds (suc i) _ no_pollfd) ∙ v.listens;
}

clients-report :
    (rs : List Events) (ps : List Pollfd)
    → map (λ p. p.fd) (drop 2 (report rs ps)) ≡ map (λ p. p.fd) (drop 2 ps)
unfolding report
clients-report [] ps = refl
clients-report (r ∷ rs) [] = refl
clients-report (r ∷ []) (p ∷ ps) = refl
clients-report (r ∷ r' ∷ rs) (p ∷ []) = refl
clients-report (r ∷ r' ∷ rs) (p ∷ q ∷ ps) = report-fds rs ps

pub report-Inv :
    (s : ParentStruct) (rs : List Events) → Inv s → Inv (record s { pollfds = report rs s.pollfds })
report-Inv s rs v = record {
  pollfds_len = length-report rs s.pollfds ∙ v.pollfds_len;
  counted = v.counted ∙ ap occupied (sym (clients-report rs s.pollfds));
  listens = report-events rs s.pollfds ∙ v.listens;
}
