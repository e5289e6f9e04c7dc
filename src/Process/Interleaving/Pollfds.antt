-- ===== src/Process/Interleaving/Pollfds.antt =====
-- The pollfds of the parent as slots: what process_server.c does to them is what the moves do.
use mathlib.Core.Path.{fun_ext, subst}
use scalable_server.Os.{no_pollfd, no_events, only_pollin, Pollfd, SockaddrIn}
use scalable_server.Process.Invariant.{
  Inv, client_fd, clients, clients-set, length-clients, set_listen-clients,
}
use scalable_server.Process.State.{
  disable, forget_connection, increment, max_connections, p_get_pollfd_index, ParentStruct,
  reenable, reenable_from, save_connection, toggle,
}
use scalable_server.Process.Interleaving.System.{
  accept, disables, enable, enables, hang_up, is_client, is_free, off, on, ParentMove, polling,
  reenabled, scanning, Shared, Slot,
}
use scalable_server.Process.Interleaving.FirstFree.{FirstFree, pollfd_index_from-FirstFree, slot_of}
use scalable_server.Process.Interleaving.System.{disable as disable_move}
use scalable_server.Prelude.{
  Bool, ◌<◌, ◌≡◌, ◌∙◌, ◌∷◌, [], ap, arith, drop, eqb_ℤ, false, get_or, if◌then◌else◌, leb, length,
  List, map, negate, negsuc, pos, refl, set, set_at, suc, sum, sum-none, sym, true, zero, ℕ, ℤ,
}

unfoldable pub slots_of : ParentStruct → ℕ → Slot
slots_of s p = slot_of (get_or (clients s) p (pos 0))

get_or-set_at :
    (xs : List ℤ) (i : ℕ) (v : ℤ) (j : ℕ)
    → i < length xs
    → slot_of (get_or (set xs i v) j (pos 0))
      ≡ set_at i (slot_of v) (λ p. slot_of (get_or xs p (pos 0))) j
get_or-set_at [] i v j lt = absurd (omega arith)
get_or-set_at (x ∷ xs) zero v zero lt = ground arith
get_or-set_at (x ∷ xs) zero v (suc j) lt = ground arith
get_or-set_at (x ∷ xs) (suc i) v zero lt = ground arith
get_or-set_at (x ∷ xs) (suc i) v (suc j) lt = ground (arith, get_or-set_at xs i v j (omega arith))

slot_of-pos : (n : ℕ) → 0 < n → slot_of (pos n) ≡ on n
unfolding slot_of
slot_of-pos zero h = absurd (omega arith)
slot_of-pos (suc n) h = refl

negate-slot : (x : ℤ) (n : ℕ) → slot_of x ≡ on n → slot_of (negate x) ≡ off n
unfolding slot_of
negate-slot (pos zero) n e = absurd (ground arith)
negate-slot (pos (suc m)) n e = ground arith
negate-slot (negsuc m) n e = absurd (ground arith)

reenable-slot :
    (x : ℤ) (n : ℕ)
    → 0 < n
    → slot_of (if eqb_ℤ x (negate (pos n)) then negate x else x) ≡ reenabled n (slot_of x)
unfolding slot_of reenabled
reenable-slot x zero h = absurd (omega arith)
reenable-slot (pos zero) (suc n) h = refl
reenable-slot (pos (suc m)) (suc n) h = refl
reenable-slot (negsuc m) (suc n) h = ground arith

reenable_from-slots :
    (n : ℕ)
    → 0 < n
    → (ps : List Pollfd) (j : ℕ)
    → slot_of (get_or (map (λ p. p.fd) (reenable_from (pos n) ps)) j (pos 0))
      ≡ reenabled n (slot_of (get_or (map (λ p. p.fd) ps) j (pos 0)))
unfolding reenable_from reenabled slot_of
reenable_from-slots n h [] j = refl
reenable_from-slots n h (p ∷ ps) zero = go (eqb_ℤ p.fd (negate (pos n))) refl
  where
    go :
        (b : Bool)
        → eqb_ℤ p.fd (negate (pos n)) ≡ b
        → slot_of (if b then toggle p else p).fd ≡ reenabled n (slot_of p.fd)
    go true e = rw e at (reenable-slot p.fd n h)
    go false e = rw e at (reenable-slot p.fd n h)
reenable_from-slots n h (p ∷ ps) (suc j) = reenable_from-slots n h ps j

reenable-slots :
    (n : ℕ)
    → 0 < n
    → (ps : List Pollfd) (j : ℕ)
    → slot_of (get_or (map (λ p. p.fd) (drop 2 (reenable (pos n) ps))) j (pos 0))
      ≡ reenabled n (slot_of (get_or (map (λ p. p.fd) (drop 2 ps)) j (pos 0)))
unfolding reenable slot_of reenabled
reenable-slots n h [] j = refl
reenable-slots n h (l ∷ []) j = refl
reenable-slots n h (l ∷ q ∷ ps) j = reenable_from-slots n h ps j

-- The moves of the parent, as the functions of process_server.c make them.
module _ (s : ParentStruct) (v : Inv s) (sh : Shared) where
  -- What the clients' descriptors say of the slots, after a write to one pollfd.
  written :
      (x : Pollfd) (i : ℕ)
      → i < length (clients s)
      → (ps : List Pollfd)
      → map (λ p. p.fd) (drop 2 ps) ≡ map (λ p. p.fd) (drop 2 (set s.pollfds (suc (suc i)) x))
      → ◌≡◌ {A = ℕ → Slot}
          (λ j. slot_of (get_or (map (λ (p : Pollfd). p.fd) (drop 2 ps)) j (pos 0)))
          (set_at i (slot_of x.fd) (slots_of s))
  unfolding slots_of
  written x i lt ps e = fun_ext (λ j.
      ap (λ fds. slot_of (get_or fds j (pos 0))) (e ∙ clients-set s.pollfds i x)
      ∙ get_or-set_at (clients s) i x.fd j lt)

  -- Under the invariant of the parent, where there is room for a connection and its descriptor is not 0 and
  -- not that of a slot, saving the connection at the index of `p_get_pollfd_index` changes the slots
  -- as the move `accept` does.
  pub save_connection-accept :
      (n : ℕ) (addr : SockaddrIn)
      → s.num_connections < max_connections
      → 0 < n
      → sum (is_client n) max_connections (slots_of s) ≡ 0
      → ParentMove max_connections sh
          (slots_of s)
          polling
          sh
          (slots_of (save_connection (p_get_pollfd_index s.pollfds) n addr s))
          polling
  unfolding save_connection p_get_pollfd_index slots_of
  save_connection-accept n addr room nonzero fresh =
      let (i, e, found) =
        pollfd_index_from-FirstFree 2 (drop 2 s.pollfds)
          (omega (arith, v.counted, length-clients s v)) in
      let index : p_get_pollfd_index s.pollfds ≡ suc (suc i) = e ∙ omega arith in
      rw index (saved i found)
    where
      new : ℕ → Pollfd
      new i = record (get_or s.pollfds (suc (suc i)) no_pollfd) { fd = pos n; events = only_pollin }

      saved :
          (i : ℕ)
          → FirstFree (clients s) i
          → ParentMove max_connections sh
              (slots_of s)
              polling
              sh
              (slots_of (save_connection (suc (suc i)) n addr s))
              polling
      saved i found =
          subst (λ f. ParentMove max_connections sh (slots_of s) polling sh f polling)
            (sym (
              written (new i) i found.in_range (save_connection (suc (suc i)) n addr s).pollfds (
                set_listen-clients (leb max_connections (increment s.num_connections)) no_events
                  (set s.pollfds (suc (suc i)) (new i)))
              ∙ ap (λ x. set_at i x (slots_of s)) (slot_of-pos n nonzero)))
            (accept (omega (arith, found.in_range, length-clients s v)) found.unused
              (sum-none is_free i (slots_of s) found.earlier) nonzero fresh)

  forget_connection-hang_up :
      (p n : ℕ)
      → p < max_connections
      → slots_of s p ≡ on n
      → ParentMove max_connections sh
          (slots_of s)
          (scanning p)
          sh
          (slots_of (forget_connection (suc (suc p)) s))
          (scanning (suc p))
  unfolding forget_connection slots_of slot_of
  forget_connection-hang_up p n lt e =
      subst (λ f. ParentMove max_connections sh (slots_of s) (scanning p) sh f (scanning (suc p)))
        (sym (
          written no_pollfd p (omega (arith, length-clients s v))
            (forget_connection (suc (suc p)) s).pollfds
            (set_listen-clients _ only_pollin (set s.pollfds (suc (suc p)) no_pollfd))))
        (hang_up lt e)

  disable-disable :
      (p n : ℕ)
      → p < max_connections
      → slots_of s p ≡ on n
      → ParentMove max_connections sh
          (slots_of s)
          (disables p n)
          sh
          (slots_of (record s { pollfds = disable (suc (suc p)) s.pollfds }))
          (scanning (suc p))
  unfolding slots_of disable
  disable-disable p n lt e =
      subst (λ f. ParentMove max_connections sh (slots_of s) (disables p n) sh f (scanning (suc p)))
        (sym (
          written (toggle (get_or s.pollfds (suc (suc p)) no_pollfd)) p
            (omega (arith, length-clients s v)) (disable (suc (suc p)) s.pollfds) refl
          ∙ ap (λ x. set_at p x (slots_of s)) (negate-slot _ n (ap slot_of (client_fd s p) ∙ e))))
        disable_move

  reenable-enable :
      (n : ℕ)
      → 0 < n
      → ParentMove max_connections sh
          (slots_of s)
          (enables n)
          sh
          (slots_of (record s { pollfds = reenable (pos n) s.pollfds }))
          polling
  unfolding slots_of
  reenable-enable n h =
      subst (λ f. ParentMove max_connections sh (slots_of s) (enables n) sh f polling)
        (sym (fun_ext (reenable-slots n h s.pollfds))) enable
