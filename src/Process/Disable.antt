-- ===== src/Process/Disable.antt =====
-- A client's pollfd is disabled while a child reads from it, and enabled again by the child's report.
use scalable_server.Process.State.{disable, toggle, reenable, reenable_from}
use scalable_server.Os.{no_pollfd, Pollfd}
use scalable_server.Prelude.{
  zero, false, eqb_ℤ-refl, arith, set, negate, refl, [], length, get_or, ◌∷◌, eqb_ℤ, ◌<◌,
  negate-negate, suc, ◌≡◌, ℕ, List, ℤ,
}

-- No pollfd is disabled under the descriptor `fd`.
abbrev pub NotDisabled : ℤ → List Pollfd → Type 0
NotDisabled fd ps = (j : ℕ) → eqb_ℤ (get_or ps j no_pollfd).fd (negate fd) ≡ false

toggle-toggle : (x : Pollfd) → toggle (toggle x) ≡ x
toggle-toggle x = rw (negate-negate x.fd)

reenable_from-none : (fd : ℤ) (ps : List Pollfd) → NotDisabled fd ps → reenable_from fd ps ≡ ps
unfolding reenable_from
reenable_from-none fd [] h = refl
reenable_from-none fd (x ∷ xs) h = rw (h 0, reenable_from-none fd xs (λ j. h (suc j)))

reenable_from-toggle :
    (ps : List Pollfd) (i : ℕ)
    → i < length ps
    → NotDisabled (get_or ps i no_pollfd).fd ps
    → reenable_from (get_or ps i no_pollfd).fd (set ps i (toggle (get_or ps i no_pollfd))) ≡ ps
unfolding reenable_from
reenable_from-toggle [] i lt h = absurd (omega arith)
reenable_from-toggle (x ∷ xs) zero lt h =
    rw (eqb_ℤ-refl (negate x.fd), toggle-toggle x, reenable_from-none x.fd xs (λ j. h (suc j)))
reenable_from-toggle (x ∷ xs) (suc i) lt h =
    rw (h 0, reenable_from-toggle xs i (omega arith) (λ j. h (suc j)))

-- Where no pollfd is disabled under the descriptor of client `i`, disabling that client's pollfd and then
-- enabling the descriptor again restores all pollfds, other disabled ones included.
pub reenable-disable :
    (ps : List Pollfd) (i : ℕ)
    → suc (suc i) < length ps
    → NotDisabled (get_or ps (suc (suc i)) no_pollfd).fd ps
    → reenable (get_or ps (suc (suc i)) no_pollfd).fd (disable (suc (suc i)) ps) ≡ ps
unfolding reenable disable
reenable-disable [] i lt h = absurd (omega arith)
reenable-disable (l ∷ []) i lt h = absurd (omega arith)
reenable-disable (l ∷ q ∷ clients) i lt h =
    rw (reenable_from-toggle clients i (omega arith) (λ j. h (suc (suc j))))
