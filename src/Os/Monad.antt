-- ===== src/Os/Monad.antt =====
-- C code over a platform: each function takes the state of its program and the trace of its calls.
use scalable_server.Prelude.{
  false, true, Bool, ℕ, List, ◌∷◌, ◌++◌, drop, length, Option, none, some,
}
use scalable_server.Os.Calls.{Errno, eintr, Ret, ok, fail, Call, Answer, Event, did, Platform}

pub record Machine (S : Type 0) : Type 0 where
  pub trace : List Event
  pub errno : Errno
  pub st : S

-- How a function ends: with a value, with -1, in undefined behaviour (a NULL dereference, a write out
-- of bounds), or not within the rounds that its loop was given.
pub data Res (A : Type 0) : Type 0 where
  ret : A → Res A
  err : Res A
  fault : Res A
  more : Res A

abbrev pub M : Type 0 → Type 0 → Type 0
M S A = Machine S → Res A × Machine S

abbrev pub pure : {S A : Type 0} → A → M S A
pure a w = (ret a, w)

-- return -1
abbrev pub give_up : {S A : Type 0} → M S A
give_up w = (err, w)

abbrev pub undefined : {S A : Type 0} → M S A
undefined w = (fault, w)

abbrev pub out_of_rounds : {S A : Type 0} → M S A
out_of_rounds w = (more, w)

-- The second half of a sequence, from the outcome of the first.
abbrev pub resume : {S A B : Type 0} → Res A × Machine S → (A → M S B) → Res B × Machine S
resume (ret a, w) f = f a w
resume (err, w) f = (err, w)
resume (fault, w) f = (fault, w)
resume (more, w) f = (more, w)

infixl 5 ◌>>=◌ ◌>>◌
abbrev pub ◌>>=◌ : {S A B : Type 0} → M S A → (A → M S B) → M S B
◌>>=◌ m f w = resume (m w) f

abbrev pub ◌>>◌ : {S B : Type 0} → M S (Unit {0}) → M S B → M S B
m >> k = m >>= λ _. k

abbrev pub get : {S : Type 0} → M S S
get w = (ret w.st, w)

abbrev pub put : {S : Type 0} → S → M S (Unit {0})
put s w = (ret tt, record w { st = s })

-- `if (f(…) == -1) return -1;`
abbrev pub check : {S A : Type 0} → Ret A → M S A
check (ok a) w = (ret a, w)
check (fail e) w = (err, record w { errno = e })

-- A result that the code casts to void; a failure still sets `errno`.
abbrev pub ignore : {S A : Type 0} → Ret A → M S (Unit {0})
ignore (ok _) w = (ret tt, w)
ignore (fail e) w = (ret tt, record w { errno = e })

-- `if (f(…) == -1) { clean up; return -1; }`
abbrev pub or_clean_up : {S A : Type 0} → Ret A → M S (Unit {0}) → M S A
or_clean_up (ok a) h w = (ret a, w)
or_clean_up (fail e) h w = (h >>= λ _. give_up) (record w { errno = e })

-- `if (!pointer) return -1;`
abbrev pub non_null : {S : Type 0} {A : Type 0} → Option A → M S A
non_null (some a) w = (ret a, w)
non_null none w = (err, w)

module _ (os : Platform) where
  -- A call is answered from the trace so far, and joins it.
  abbrev pub call : {S : Type 0} → (c : Call) → M S (Answer c)
  call c w = let a = os.answer w.trace c in (ret a, record w { trace = did c a ∷ w.trace })

  -- What an uninitialised variable holds.
  abbrev pub uninitialised : {S : Type 0} → M S (List ℕ)
  uninitialised w = (ret (os.scratch w.trace), w)

abbrev pub set_errno : {S : Type 0} → Errno → M S (Unit {0})
set_errno e w = (ret tt, record w { errno = e })

-- Memory after a write of `bytes` at its start.
abbrev pub overlay : List ℕ → List ℕ → List ℕ
overlay bytes memory = bytes ++ drop (length bytes) memory

-- `if (f(…) == -1) …`: `none` is the -1.
abbrev pub attempt : {S A : Type 0} → M S A → M S (Option A)
attempt m w =
    let r = m w in
    elim r.0 [
      | ret a ↦ (ret (some a), r.1)
      | err ↦ (ret none, r.1)
      | fault ↦ (fault, r.1)
      | more ↦ (more, r.1)
    ]

-- Run code of a part of the state.
abbrev pub focus : {S T A : Type 0} → (S → T) → (T → S) → M T A → M S A
focus into out m w =
    let r = m (record { trace = w.trace; errno = w.errno; st = into w.st }) in
    (r.0, record { trace = r.1.trace; errno = r.1.errno; st = out r.1.st })

-- `errno == EINTR`
abbrev pub is_eintr : Errno → Bool
is_eintr eintr = true
is_eintr _ = false

abbrev pub interrupted : {S : Type 0} → M S Bool
interrupted w = (ret (is_eintr w.errno), w)
