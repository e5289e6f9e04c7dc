-- ===== src/Client/Receiving.antt =====
-- What the client reads from its controller (client/src/util.c).
use scalable_server.Os.{
  write, Ret, malloc, ret, more, did, ok, read, Machine, Errno, Res, Answer, Event, Call, Platform,
}
use scalable_server.Client.Util.{read_fully, read_loop}
use scalable_server.Prelude.{
  Option, eqb_ℤ-refl, append_assoc, ap, ◌∙◌, length-append, ◌-◌, lt→ltb, le→ltb, append-nil, sym,
  refl, zero, arith, suc, ◌≤◌, ◌+◌, eqb_ℤ, length, if◌then◌else◌, [], ◌≡◌, ◌<◌, ◌++◌, ◌∷◌, ℕ, ℤ,
  List,
}

consumed_by : ℤ → (c : Call) → Answer c → List ℕ
consumed_by fd (read fd' n) (ok bytes) = if eqb_ℤ fd' fd then bytes else []
consumed_by fd _ _ = []

-- The bytes that a trace read from a descriptor.
unfoldable pub consumed : ℤ → List Event → List ℕ
unfolding consumed_by
consumed fd [] = []
consumed fd (did c a ∷ t) = consumed fd t ++ consumed_by fd c a

pub consumed-malloc :
    (fd : ℤ) (n : ℕ) (p : Option ℕ) (t : List Event)
    → consumed fd (did (malloc n) p ∷ t) ≡ consumed fd t
unfolding consumed consumed_by
consumed-malloc fd n p t = append-nil (consumed fd t)

pub consumed-write :
    (fd to : ℤ) (bytes : List ℕ) (a : Ret ℕ) (t : List Event)
    → consumed fd (did (write to bytes) a ∷ t) ≡ consumed fd t
unfolding consumed consumed_by
consumed-write fd to bytes a t = append-nil (consumed fd t)

-- While bytes of the stream `s` are still to come on `fd`, a read() of as many as are left or fewer takes one at least, in order.
pub record Delivers (os : Platform) (fd : ℤ) (s : List ℕ) : Type 0 where
  pub delivers :
      (h : List Event) (x : ℕ) (part rest : List ℕ)
      → (consumed fd h ++ (x ∷ part)) ++ rest ≡ s
      → (p : List ℕ × List ℕ) × (os.answer h (read fd (length (x ∷ part))) ≡ ok p.0)
        × (p.0 ++ p.1 ≡ x ∷ part)
        × (0 < length p.0)

-- The stream is at its end.
abbrev pub Ended : Platform → ℤ → Type 0
Ended os fd = (h : List Event) (n : ℕ) → os.answer h (read fd n) ≡ ok []

module _ {S : Type 0} where
  -- The code returns `a` in the state `st`, and of the stream `s` there is `rest` to come.
  abbrev pub Got : {A : Type 0} → ℤ → List ℕ → List ℕ → A → S → Res A × Machine S → Type 0
  Got fd s rest a st r =
      (p : List Event × Errno) × (r ≡ (ret a, record { trace = p.0; errno = p.1; st = st }))
      × (consumed fd p.0 ++ rest ≡ s)

  Got-elim :
      {A : Type 0} (fd : ℤ) (s rest : List ℕ) (a : A) (st : S) (r : Res A × Machine S)
      (P : Res A × Machine S → Type 0)
      → Got fd s rest a st r
      → ((t : List Event) (e : Errno)
          → consumed fd t ++ rest ≡ s
          → P (ret a, record { trace = t; errno = e; st = st }))
      → P r
  Got-elim fd s rest a st r P ((t, e), same, left) next = rw same (next t e left)

  -- At the end of the stream the loop does not end, whatever number of rounds it is given.
  pub read_loop-stalls :
      (os : Platform) (fd : ℤ)
      → Ended os fd
      → (rounds room size : ℕ) (w : Machine S) → 0 < size
      → (read_loop os rounds fd room size [] w).0 ≡ more
  unfolding read_loop
  read_loop-stalls os fd ended zero room size w h = refl
  read_loop-stalls os fd ended (suc rounds) room size w h =
      rw (lt→ltb 0 size h, ended w.trace (size - 0), le→ltb room 0 (omega arith))
        (read_loop-stalls os fd ended rounds room size
          (record w { trace = did (read fd (size - 0)) (ok []) ∷ w.trace }) h)

  read_loop-Got :
      (os : Platform) (fd : ℤ) (s : List ℕ)
      → Delivers os fd s
      → (rounds room size : ℕ) (got part rest : List ℕ) (t : List Event) (e : Errno) (st : S)
      → (consumed fd t ++ part) ++ rest ≡ s
      → length got + length part ≡ size
      → size ≤ room
      → length part < rounds
      → Got fd s rest
          (got ++ part)
          st
          (read_loop os rounds fd room size got (record { trace = t; errno = e; st = st }))
  unfolding read_loop consumed
  read_loop-Got os fd s law zero room size got part rest t e st left same fits enough =
      absurd (omega arith)
  read_loop-Got os fd s law (suc rounds) room size got [] rest t e st left same fits enough =
      rw (append-nil got, le→ltb (length got) size (omega arith))
        ((t, e), refl, rw (append-nil (consumed fd t)) at left)
  read_loop-Got os fd s law (suc rounds) room size got (x ∷ part) rest t e st left same fits
        enough =
      go (law.delivers t x part rest left) (λ front back left' same' enough'.
        read_loop-Got os fd s law rounds room size (got ++ front) back rest
          (did (read fd (length (x ∷ part))) (ok front) ∷ t) e st left' same' fits enough')
    where
      left_to_read : size - length got ≡ length (x ∷ part)
      left_to_read = omega arith

      go :
          ((p : List ℕ × List ℕ) × (os.answer t (read fd (length (x ∷ part))) ≡ ok p.0)
            × (p.0 ++ p.1 ≡ x ∷ part)
            × (0 < length p.0))
          → ((front back : List ℕ)
              → (consumed fd (did (read fd (length (x ∷ part))) (ok front) ∷ t) ++ back) ++ rest ≡ s
              → length (got ++ front) + length back ≡ size
              → length back < rounds
              → Got fd s rest ((got ++ front) ++ back) st (
                  read_loop os rounds fd room size (got ++ front) (record {
                    trace = did (read fd (length (x ∷ part))) (ok front) ∷ t;
                    errno = e;
                    st = st;
                  })))
          → Got fd s rest (got ++ (x ∷ part)) st (
              read_loop os (suc rounds) fd room size got (record { trace = t; errno = e; st = st }))
      go ((front, back), answer, split, some_came) ih =
          let total : length front + length back ≡ length (x ∷ part) =
            sym (length-append front back) ∙ ap length split in
          let so_far : length (got ++ front) ≡ length got + length front =
            length-append got front in
          let room_left : length got + length front ≤ room = omega arith in
          let stream : consumed fd t ++ front ++ back ≡ consumed fd t ++ (x ∷ part) =
            append_assoc (consumed fd t) front back ∙ ap (λ xs. consumed fd t ++ xs) split in
          rw
            (
              lt→ltb (length got) size (omega arith),
              left_to_read,
              answer,
              le→ltb room (length got + length front) room_left,
              sym split,
              sym (append_assoc got front back),
            )
            (ih front back (rw (eqb_ℤ-refl fd) (rw stream left)) (omega arith) (omega arith))

module _ {S : Type 0} (os : Platform) (fd : ℤ) (s rest : List ℕ) (law : Delivers os fd s) where
  -- A part of the stream is read, and what follows goes on from there.
  pub read_fully-Got :
      (P : Res (List ℕ) × Machine S → Type 0) (room size : ℕ) (part others : List ℕ)
      (t : List Event) (e : Errno) (st : S)
      → (consumed fd t ++ (part ++ others)) ++ rest ≡ s
      → length part ≡ size
      → size ≤ room
      → ((t' : List Event) (e' : Errno)
          → (consumed fd t' ++ others) ++ rest ≡ s
          → P (ret part, record { trace = t'; errno = e'; st = st }))
      → P (read_fully os fd room size (record { trace = t; errno = e; st = st }))
  unfolding read_fully
  read_fully-Got P room size part others t e st left same fits next =
      Got-elim fd s (others ++ rest) part st
        (read_loop os (suc size) fd room size [] (record { trace = t; errno = e; st = st })) P
        (read_loop-Got os fd s law (suc size) room size [] part (others ++ rest) t e st
          (regroup left) (omega arith) fits (omega arith))
        (λ t' e' left'. next t' e' (append_assoc (consumed fd t') others rest ∙ left'))
    where
      regroup :
          (consumed fd t ++ (part ++ others)) ++ rest ≡ s
          → (consumed fd t ++ part) ++ (others ++ rest) ≡ s
      regroup h = simp append_assoc (simp append_assoc at h)
