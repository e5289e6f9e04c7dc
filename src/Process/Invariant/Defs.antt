-- ===== src/Process/Invariant/Defs.antt =====
-- The invariant of the parent's pollfds, and the lemmas on slots behind its proofs.
use scalable_server.Os.{no_events, only_pollin, no_pollfd, Events, Pollfd}
use Prim.Native.Nat.{suc, ℕ}
use scalable_server.Prelude.{
  inr, inl, map-set, false, Bool-cases, true, refl, ◌∙◌, arith, length-set, ap, [], pos, ltb, ◌+◌,
  is_zero, suc, ◌∷◌, ◌≡◌, map, if◌then◌else◌, set, get_or, drop, ℤ, occupied, length, ◌<◌, Bool,
  List, ℕ,
}
use scalable_server.Process.State.{
  increment, pollfds_size, set_listen, max_connections, ParentStruct, pollfd_index_from,
}

-- The descriptors of the clients: 0 for a free slot, negated while a child reads from it.
abbrev pub clients : ParentStruct → List ℤ
clients s = map (λ p. p.fd) (drop 2 s.pollfds)

abbrev pub listen_events : ParentStruct → Events
listen_events s = (get_or s.pollfds 0 no_pollfd).events

-- There are seven pollfds; the count of connections is the number of clients; the listening socket is
-- polled for input just while there is room.
pub record Inv (s : ParentStruct) : Type 0 where
  pub pollfds_len : length s.pollfds ≡ pollfds_size
  pub counted : s.num_connections ≡ occupied (clients s)
  pub listens :
      listen_events s ≡ (if ltb s.num_connections max_connections then only_pollin else no_events)

pub increment_lem : (n : ℕ) → n < max_connections → increment n ≡ suc n
increment_lem n h = omega arith

pub drop-set :
    {A : Type 0} (xs : List A) (i : ℕ) (v : A)
    → drop 2 (set xs (suc (suc i)) v) ≡ set (drop 2 xs) i v
drop-set [] i v = ground arith
drop-set (x ∷ []) i v = ground arith
drop-set (x ∷ y ∷ xs) i v = refl

pub clients-set :
    (ps : List Pollfd) (i : ℕ) (p : Pollfd)
    → map (λ p. p.fd) (drop 2 (set ps (suc (suc i)) p)) ≡ set (map (λ p. p.fd) (drop 2 ps)) i p.fd
clients-set ps i p =
    ap (map (λ (p : Pollfd). p.fd)) (drop-set ps i p)
    ∙ map-set (λ (p : Pollfd). p.fd) (drop 2 ps) i p

pub length-clients : (s : ParentStruct) → Inv s → length (clients s) ≡ max_connections
length-clients s v = go s.pollfds v.pollfds_len
  where
    length-map : (ps : List Pollfd) → length (map (λ (p : Pollfd). p.fd) ps) ≡ length ps
    length-map [] = refl
    length-map (p ∷ ps) = ap suc (length-map ps)

    go :
        (ps : List Pollfd)
        → length ps ≡ pollfds_size
        → length (map (λ (p : Pollfd). p.fd) (drop 2 ps)) ≡ max_connections
    go [] h = absurd (omega arith)
    go (x ∷ []) h = absurd (omega arith)
    go (x ∷ y ∷ ps) h = length-map ps ∙ omega arith

-- The index that the scan gives, counted from the first client, is that of a free slot.
pub record IsFree (ps : List Pollfd) (i : ℕ) : Type 0 where
  pub in_range : i < length (map (λ p. p.fd) ps)
  pub free : is_zero (get_or (map (λ p. p.fd) ps) i (pos 0)) ≡ true

pub pollfd_index_from-IsFree :
    (k : ℕ) (ps : List Pollfd)
    → occupied (map (λ p. p.fd) ps) < length (map (λ p. p.fd) ps)
    → (i : ℕ) × (pollfd_index_from k ps ≡ k + i) × IsFree ps i
unfolding pollfd_index_from occupied
pollfd_index_from-IsFree k [] h = absurd (omega arith)
pollfd_index_from-IsFree k (p ∷ ps) h = elim (Bool-cases (is_zero p.fd)) [
  | inl free ↦ (0, rw free (omega arith), record { in_range = omega arith; free = free })
  | inr used ↦
      let (i, e, found) = pollfd_index_from-IsFree (suc k) ps (ground (arith, used, h)) in
      (
        suc i,
        rw used (omega (arith, e)),
        record { in_range = omega (arith, found.in_range); free = found.free },
      )
]

pub set_listen-clients :
    (b : Bool) (e : Events) (ps : List Pollfd)
    → map (λ p. p.fd) (drop 2 (if b then set_listen e ps else ps)) ≡ map (λ p. p.fd) (drop 2 ps)
set_listen-clients true e [] = refl
set_listen-clients true e (p ∷ []) = refl
set_listen-clients true e (p ∷ q ∷ ps) = refl
set_listen-clients false e ps = refl

pub set_listen-length :
    (b : Bool) (e : Events) (ps : List Pollfd)
    → length (if b then set_listen e ps else ps) ≡ length ps
set_listen-length true e ps = length-set ps 0 _
set_listen-length false e ps = refl

pub set_listen-events :
    (b : Bool) (e : Events) (ps : List Pollfd)
    → 0 < length ps
    → (get_or (if b then set_listen e ps else ps) 0 no_pollfd).events
      ≡ (if b then e else (get_or ps 0 no_pollfd).events)
set_listen-events true e [] h = absurd (omega arith)
set_listen-events true e (p ∷ ps) h = refl
set_listen-events false e ps h = refl
