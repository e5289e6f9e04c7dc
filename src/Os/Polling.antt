-- ===== src/Os/Polling.antt =====
-- What `poll` writes, and what the event loops rely on of the calls.
use scalable_server.Prelude.{
  ℕ, ℤ, suc, zero, ◌<◌, List, [], ◌∷◌, length, map, get_or, is_zero, ◌≡◌, refl, ap, true, false,
  arith,
}
use scalable_server.Os.Calls.{
  Events, no_events, Pollfd, no_pollfd, is_pollin, is_hung_up, Event, Platform, SockaddrIn, ok,
  accept, poll,
}

-- What `poll` writes.
unfoldable pub report : List Events → List Pollfd → List Pollfd
report [] ps = ps
report (r ∷ rs) [] = []
report (r ∷ rs) (p ∷ ps) = record p { revents = r } ∷ report rs ps

pub report-fds :
    (rs : List Events) (ps : List Pollfd) → map (λ p. p.fd) (report rs ps) ≡ map (λ p. p.fd) ps
unfolding report
report-fds [] ps = refl
report-fds (r ∷ rs) [] = refl
report-fds (r ∷ rs) (p ∷ ps) = ap (◌∷◌ p.fd) (report-fds rs ps)

pub report-events :
    (rs : List Events) (ps : List Pollfd)
    → (get_or (report rs ps) 0 no_pollfd).events ≡ (get_or ps 0 no_pollfd).events
unfolding report
report-events [] ps = refl
report-events (r ∷ rs) [] = refl
report-events (r ∷ rs) (p ∷ ps) = refl

pub length-report : (rs : List Events) (ps : List Pollfd) → length (report rs ps) ≡ length ps
unfolding report
length-report [] ps = refl
length-report (r ∷ rs) [] = refl
length-report (r ∷ rs) (p ∷ ps) = ap suc (length-report rs ps)

pub report-get_or :
    (rs : List Events) (ps : List Pollfd) (j : ℕ)
    → length rs ≡ length ps
    → get_or (report rs ps) j no_pollfd
      ≡ record (get_or ps j no_pollfd) { revents = get_or rs j no_events }
unfolding report
report-get_or [] [] j h = refl
report-get_or [] (p ∷ ps) j h = absurd (omega arith)
report-get_or (r ∷ rs) [] j h = absurd (omega arith)
report-get_or (r ∷ rs) (p ∷ ps) zero h = refl
report-get_or (r ∷ rs) (p ∷ ps) (suc j) h = report-get_or rs ps j (omega arith)

-- A free slot is neither hung up nor in error.
abbrev pub Calm : Pollfd → Type 0
Calm p = is_zero p.fd ≡ true → is_hung_up p.revents ≡ false

module _ (os : Platform) where
  -- What the loop relies on of the calls: `accept` gives no descriptor 0, since that is open; `poll`
  -- reports on each pollfd, and plain input on the listening socket only where it was asked for.
  pub record Lawful : Type 0 where
    pub accept_positive :
        (h : List Event) (fd : ℤ) (n : ℕ) (addr : SockaddrIn)
        → os.answer h (accept fd) ≡ ok (n, addr)
        → 0 < n
    pub poll_reports_all :
        (h : List Event) (ps : List Pollfd) (rs : List Events)
        → os.answer h (poll ps) ≡ ok rs
        → length rs ≡ length ps
    pub poll_requested :
        (h : List Event) (ps : List Pollfd) (rs : List Events)
        → os.answer h (poll ps) ≡ ok rs
        → is_pollin (get_or rs 0 no_events) ≡ true
        → (get_or ps 0 no_pollfd).events.pollin ≡ true

  -- Standard input stays open. A free slot holds the descriptor 0, which `poll` does not skip: it
  -- watches standard input there, and could report it hung up or in error. This says that it never does.
  pub record StdinOpen : Type 0 where
    pub free_slot_calm :
        (h : List Event) (ps : List Pollfd) (rs : List Events)
        → os.answer h (poll ps) ≡ ok rs
        → (i : ℕ) → is_zero (get_or ps i no_pollfd).fd ≡ true
        → is_hung_up (get_or rs i no_events) ≡ false
