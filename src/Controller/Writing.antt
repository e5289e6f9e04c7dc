-- ===== src/Controller/Writing.antt =====
-- What `write_fully` of client-controller/src/util.c writes, as the trace tells it.
use scalable_server.Controller.Util.{write_fully, write_loop}
use scalable_server.Prelude.{
  eqb_ℤ-refl, length-drop, append-nil, sym, inr, refl, take-append-drop, zero, ap, ◌∙◌,
  append_assoc, suc, inl, Bool-cases, arith, ◌≤◌, [], ◌<◌, drop, ◌≡◌, ◌∷◌, eqb_ℤ, take, length,
  ◌++◌, if◌then◌else◌, List, ℕ, ℤ,
}
use scalable_server.Os.{
  read, fail, Ret, more, fault, err, ok, ret, did, Res, write, Machine, Event, Answer, Call,
  Platform,
}

written_by : ℤ → (c : Call) → Answer c → List ℕ
written_by fd (write fd' bytes) (ok n) = if eqb_ℤ fd' fd then take n bytes else []
written_by fd _ _ = []

-- The bytes that a trace wrote to a descriptor.
unfoldable pub written : ℤ → List Event → List ℕ
unfolding written_by
written fd [] = []
written fd (did c a ∷ t) = written fd t ++ written_by fd c a

pub written-read :
    (to fd : ℤ) (n : ℕ) (a : Ret (List ℕ)) (t : List Event)
    → written to (did (read fd n) a ∷ t) ≡ written to t
unfolding written written_by
written-read to fd n a t = append-nil (written to t)

-- write() takes at least a byte of those it is given, and at most all of them.
pub record WritesSome (os : Platform) : Type 0 where
  pub write_some :
      (h : List Event) (fd : ℤ) (x : ℕ) (xs : List ℕ) (n : ℕ)
      → os.answer h (write fd (x ∷ xs)) ≡ ok n
      → 0 < n
  pub write_bounded :
      (h : List Event) (fd : ℤ) (bytes : List ℕ) (n : ℕ)
      → os.answer h (write fd bytes) ≡ ok n
      → n ≤ length bytes

-- The bytes, if they are for the descriptor `to`.
abbrev pub for_fd : ℤ → ℤ → List ℕ → List ℕ
for_fd to fd bytes = if eqb_ℤ fd to then bytes else []

for_fd-split :
    (to fd : ℤ) (n : ℕ) (before bytes : List ℕ)
    → (before ++ for_fd to fd (take n bytes)) ++ for_fd to fd (drop n bytes)
      ≡ before ++ for_fd to fd bytes
for_fd-split to fd n before bytes = elim (Bool-cases (eqb_ℤ fd to)) [
  | inl same ↦ rw same (
      append_assoc before (take n bytes) (drop n bytes)
      ∙ ap (λ xs. before ++ xs) (take-append-drop n bytes))
  | inr other ↦ rw other (append_assoc before [] [])
]

pub for_fd-append :
    (to fd : ℤ) (xs ys : List ℕ) → for_fd to fd xs ++ for_fd to fd ys ≡ for_fd to fd (xs ++ ys)
for_fd-append to fd xs ys = elim (Bool-cases (eqb_ℤ fd to)) [
  | inl same ↦ rw same refl
  | inr other ↦ rw other refl
]

pub for_fd-same : (fd : ℤ) (bytes : List ℕ) → for_fd fd fd bytes ≡ bytes
for_fd-same fd bytes = rw (eqb_ℤ-refl fd) refl

pub for_fd-nil : (to fd : ℤ) → for_fd to fd [] ≡ []
for_fd-nil to fd = ground arith

module _ (os : Platform) {S : Type 0} where
  abbrev after : (c : Call) → Answer c → Machine S → Machine S
  after c a w = record w { trace = did c a ∷ w.trace }

  -- From `before` on, a write of `bytes` for `to` is done, or fails; the state stays.
  abbrev pub Wrote : ℤ → List ℕ → Machine S → Res (Unit {0}) × Machine S → Type 0
  Wrote to bytes before (ret r, w) =
      (written to w.trace ≡ written to before.trace ++ bytes) × (w.st ≡ before.st)
  Wrote to bytes before (err, w) = w.st ≡ before.st
  Wrote to bytes before (fault, w) = ⊥
  Wrote to bytes before (more, w) = ⊥

  Wrote-shift :
      (to : ℤ) (rest bytes : List ℕ) (w v : Machine S) (r : Res (Unit {0}) × Machine S)
      → written to v.trace ++ rest ≡ written to w.trace ++ bytes
      → v.st ≡ w.st
      → Wrote to rest v r
      → Wrote to bytes w r
  Wrote-shift to rest bytes w v (ret x, u) e same h = (h.0 ∙ e, h.1 ∙ same)
  Wrote-shift to rest bytes w v (err, u) e same h = h ∙ same
  Wrote-shift to rest bytes w v (fault, u) e same h = h
  Wrote-shift to rest bytes w v (more, u) e same h = h

  write_loop-Wrote :
      WritesSome os
      → (to : ℤ) (rounds : ℕ) (fd : ℤ) (left : List ℕ) (w : Machine S) → length left < rounds
      → Wrote to (for_fd to fd left) w (write_loop os rounds fd left w)
  unfolding write_loop written
  write_loop-Wrote law to zero fd left w enough = absurd (omega arith)
  write_loop-Wrote law to (suc rounds) fd [] w enough = (
    sym (append-nil (written to w.trace))
        ∙ ap (λ xs. written to w.trace ++ xs) (sym (for_fd-nil to fd)),
    refl,
  )
  write_loop-Wrote law to (suc rounds) fd (x ∷ xs) w enough =
      go (λ n v lt. write_loop-Wrote law to rounds fd (drop n xs) v lt)
        (os.answer w.trace (write fd (x ∷ xs))) refl
    where
      go :
          ((n : ℕ) (v : Machine S)
            → length (drop n xs) < rounds
            → Wrote to (for_fd to fd (drop n xs)) v (write_loop os rounds fd (drop n xs) v))
          → (a : Ret ℕ) → os.answer w.trace (write fd (x ∷ xs)) ≡ a
          → Wrote to (for_fd to fd (x ∷ xs)) w (write_loop os (suc rounds) fd (x ∷ xs) w)
      go ih (fail y) e = rw (e, write_loop) refl
      go ih (ok zero) e = absurd (omega (arith, law.write_some w.trace fd x xs zero e))
      go ih (ok (suc n)) e =
          let v = after (write fd (x ∷ xs)) (ok (suc n)) w in
          rw (e, write_loop)
            (Wrote-shift to (for_fd to fd (drop n xs)) (for_fd to fd (x ∷ xs)) w v
              (write_loop os rounds fd (drop n xs) v)
              (for_fd-split to fd (suc n) (written to w.trace) (x ∷ xs)) refl
              (ih n v (omega (arith, length-drop n xs))))

  -- Where write() takes a byte at least and at most those it is given, `write_fully` ends; if it
  -- succeeds, exactly its bytes were written, in order, to its descriptor and none to any other.
  -- The state stays, also if it fails.
  pub write_fully-Wrote :
      WritesSome os
      → (to fd : ℤ) (bytes : List ℕ) (w : Machine S)
      → Wrote to (for_fd to fd bytes) w (write_fully os fd bytes w)
  unfolding write_fully
  write_fully-Wrote law to fd bytes w =
      write_loop-Wrote law to (suc (length bytes)) fd bytes w (omega arith)
