-- ===== src/Os/Endings.antt =====
-- Loops that end once a signal comes, and the calls that code makes.
use scalable_server.Prelude.{ℕ, List, length, ◌+◌, ◌≤◌, ◌≡◌, true, arith}
use scalable_server.Os.Calls.{Platform, Event, pending_signal}
use scalable_server.Os.Monad.{Machine, Res, ret, err, fault, more, M, resume}

-- From `n` calls on, a signal has come.
abbrev pub Signalled : Platform → ℕ → Type 0
Signalled os n = (h : List Event) → n ≤ length h → os.answer h pending_signal ≡ true

-- The code does not run out of rounds.
abbrev pub Ends : {S A : Type 0} → Res A × Machine S → Type 0
Ends (more, v) = ⊥
Ends (r, v) = Unit {0}

-- The code does not run out of rounds, and if it returns, at least `k` calls were made.
abbrev pub Makes : {S A : Type 0} → ℕ → Machine S → Res A × Machine S → Type 0
Makes k w (ret a, v) = k + length w.trace ≤ length v.trace
Makes k w (err, v) = Unit {0}
Makes k w (fault, v) = Unit {0}
Makes k w (more, v) = ⊥

pub resume-Makes :
    {S A B : Type 0} (k j : ℕ) (w : Machine S) (r : Res A × Machine S) (f : A → M S B)
    → Makes k w r
    → ((a : A) (v : Machine S) → Makes j v (f a v))
    → Makes (k + j) w (resume r f)
resume-Makes {S = S} {B = B} k j w (ret a, v) f h next = go (f a v) (next a v)
  where
    go : (r : Res B × Machine S) → Makes j v r → Makes (k + j) w r
    go (ret b, u) h' = omega arith
    go (err, u) h' = h'
    go (fault, u) h' = h'
    go (more, u) h' = h'
resume-Makes k j w (err, v) f h next = tt
resume-Makes k j w (fault, v) f h next = tt
resume-Makes k j w (more, v) f h next = absurd h

pub resume-Ends :
    {S A B : Type 0} (k : ℕ) (w : Machine S) (r : Res A × Machine S) (f : A → M S B)
    → Makes k w r
    → ((a : A) (v : Machine S) → Ends (f a v))
    → Ends (resume r f)
resume-Ends k w (ret a, v) f h next = next a v
resume-Ends k w (err, v) f h next = tt
resume-Ends k w (fault, v) f h next = tt
resume-Ends k w (more, v) f h next = absurd h

-- The code runs from `v`, after `k` calls since `w`.
pub Makes-later :
    {S A : Type 0} (k : ℕ) (w v : Machine S) (r : Res A × Machine S)
    → k + length w.trace ≤ length v.trace
    → Makes 0 v r
    → Makes k w r
Makes-later k w v (ret a, u) later h = omega arith
Makes-later k w v (err, u) later h = h
Makes-later k w v (fault, u) later h = h
Makes-later k w v (more, u) later h = h

-- The code does not run out of rounds, and if it returns, its result has `P`.
abbrev pub Brings : {S A : Type 0} → (A → Type 0) → Machine S → Res A × Machine S → Type 0
Brings P w (ret a, v) = P a × (length w.trace ≤ length v.trace)
Brings P w (err, v) = Unit {0}
Brings P w (fault, v) = Unit {0}
Brings P w (more, v) = ⊥

pub resume-Brings :
    {S A B : Type 0} (P : A → Type 0) (w : Machine S) (r : Res A × Machine S) (f : A → M S B)
    → Brings P w r
    → ((a : A) (v : Machine S) → P a → Makes 0 v (f a v))
    → Makes 0 w (resume r f)
resume-Brings P w (ret a, v) f h next =
    Makes-later 0 w v (f a v) (omega (arith, h.1)) (next a v h.0)
resume-Brings P w (err, v) f h next = tt
resume-Brings P w (fault, v) f h next = tt
resume-Brings P w (more, v) f h next = absurd h
