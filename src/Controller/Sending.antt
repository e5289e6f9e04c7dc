-- ===== src/Controller/Sending.antt =====
-- What the controller writes to its clients (client-controller/src/connection.c).
use scalable_server.Controller.Util.{write_fully}
use scalable_server.Controller.State.{connected, Controller}
use scalable_server.Controller.Connection.{is_some, data_parts, send_data, send_all, send_data_to}
use scalable_server.Os.{more, fault, err, ◌>>=◌, attempt, ret, M, Machine, Platform, Res}
use scalable_server.Prelude.{
  append_assoc, inr, suc, append-nil, ap, none, inl, eqb_ℤ, ◌∙◌, Bool-cases, sym, refl, some, true,
  ◌++◌, arith, join, if◌then◌else◌, [], false, Option, ◌∷◌, ◌≡◌, ℕ, Bool, List, ℤ,
}
use scalable_server.Controller.Writing.{
  WritesSome, Wrote, written, for_fd, for_fd-nil, for_fd-append, write_fully-Wrote,
}

abbrev for_parts : ℤ → ℤ → List (List ℕ) → List ℕ
for_parts to fd [] = []
for_parts to fd (part ∷ parts) = for_fd to fd part ++ for_parts to fd parts

-- What the descriptor `to` gets when each of `fds` gets `bytes`.
abbrev pub copies : ℤ → List ℤ → List ℕ → List ℕ
copies to [] bytes = []
copies to (fd ∷ fds) bytes = for_fd to fd bytes ++ copies to fds bytes

-- The code returns; if with success, `bytes` were written to `to` from `before` on.
abbrev pub Sent : ℤ → List ℕ → Machine Controller → Res Bool × Machine Controller → Type 0
Sent to bytes before (ret true, w) = written to w.trace ≡ written to before.trace ++ bytes
Sent to bytes before (ret false, w) = Unit
Sent to bytes before (err, w) = ⊥
Sent to bytes before (fault, w) = ⊥
Sent to bytes before (more, w) = ⊥

-- The code returns `false`.
abbrev Fails : Res Bool × Machine Controller → Type 0
Fails (ret b, w) = b ≡ false
Fails (err, w) = ⊥
Fails (fault, w) = ⊥
Fails (more, w) = ⊥

Sent-shift :
    (to : ℤ) (part rest : List ℕ) (w v : Machine Controller) (r : Res Bool × Machine Controller)
    → written to v.trace ≡ written to w.trace ++ part
    → Sent to rest v r
    → Sent to (part ++ rest) w r
Sent-shift to part rest w v (ret true, u) e h =
    h ∙ ap (λ xs. xs ++ rest) e ∙ append_assoc (written to w.trace) part rest
Sent-shift to part rest w v (ret false, u) e h = tt
Sent-shift to part rest w v (err, u) e h = h
Sent-shift to part rest w v (fault, u) e h = h
Sent-shift to part rest w v (more, u) e h = h

Fails-Sent :
    (to : ℤ) (bytes : List ℕ) (w : Machine Controller) (r : Res Bool × Machine Controller)
    → Fails r
    → Sent to bytes w r
Fails-Sent to bytes w (ret false, u) h = tt
Fails-Sent to bytes w (ret true, u) h = absurd (grind (arith, h))
Fails-Sent to bytes w (err, u) h = h
Fails-Sent to bytes w (fault, u) h = h
Fails-Sent to bytes w (more, u) h = h

module _ (os : Platform) where
  -- One write, and then `rest`, which gets whether it succeeded.
  attempt-Sent :
      WritesSome os
      → (to fd : ℤ) (part others : List ℕ) (rest : Bool → M Controller Bool)
        (w : Machine Controller)
      → ((v : Machine Controller) → Sent to others v (rest true v))
      → ((v : Machine Controller) → Fails (rest false v))
      → Sent to
          (for_fd to fd part ++ others)
          w
          ((attempt (write_fully os fd part) >>= λ sent. rest (is_some sent)) w)
  attempt-Sent law to fd part others rest w yes_case no_case =
      go (write_fully os fd part w) (write_fully-Wrote os law to fd part w)
    where
      go :
          (r : Res (Unit {0}) × Machine Controller)
          → Wrote os to (for_fd to fd part) w r
          → Sent to
              (for_fd to fd part ++ others)
              w
              ((attempt (λ _. r) >>= λ sent. rest (is_some sent)) w)
      go (ret x, v) h =
          Sent-shift to (for_fd to fd part) others w v (rest true v) (h.0) (yes_case v)
      go (err, v) h = Fails-Sent to (for_fd to fd part ++ others) w (rest false v) (no_case v)
      go (fault, v) h = absurd h
      go (more, v) h = absurd h

  -- The same when what follows fails whatever the write did.
  attempt-Fails :
      WritesSome os
      → (fd : ℤ) (part : List ℕ) (rest : Option (Unit {0}) → M Controller Bool)
        (w : Machine Controller)
      → ((sent : Option (Unit {0})) (v : Machine Controller) → Fails (rest sent v))
      → Fails ((attempt (write_fully os fd part) >>= rest) w)
  attempt-Fails law fd part rest w h =
      go (write_fully os fd part w) (write_fully-Wrote os law fd fd part w)
    where
      go :
          (r : Res (Unit {0}) × Machine Controller)
          → Wrote os fd (for_fd fd fd part) w r
          → Fails ((attempt (λ _. r) >>= rest) w)
      go (ret x, v) k = h (some x) v
      go (err, v) k = h none v
      go (fault, v) k = absurd k
      go (more, v) k = absurd k

  send_all-Fails :
      WritesSome os
      → (fd : ℤ) (parts : List (List ℕ)) (w : Machine Controller)
      → Fails (send_all os fd parts false w)
  unfolding send_all
  send_all-Fails law fd [] w = refl
  send_all-Fails law fd (part ∷ parts) w =
      attempt-Fails law fd part (λ sent. send_all os fd parts false) w
        (λ sent v. send_all-Fails law fd parts v)

  send_all-Sent :
      WritesSome os
      → (to fd : ℤ) (parts : List (List ℕ)) (w : Machine Controller)
      → Sent to (for_parts to fd parts) w (send_all os fd parts true w)
  unfolding send_all
  send_all-Sent law to fd [] w = sym (append-nil (written to w.trace))
  send_all-Sent law to fd (part ∷ parts) w =
      attempt-Sent law to fd part (for_parts to fd parts) (λ sent. send_all os fd parts sent) w
        (λ v. send_all-Sent law to fd parts v) (λ v. send_all-Fails law fd parts v)

for_parts-join :
    (to fd : ℤ) (parts : List (List ℕ)) → for_parts to fd parts ≡ for_fd to fd (join parts)
for_parts-join to fd [] = sym (for_fd-nil to fd)
for_parts-join to fd (part ∷ parts) =
    ap (λ xs. for_fd to fd part ++ xs) (for_parts-join to fd parts)
    ∙ for_fd-append to fd part (join parts)

module _ (os : Platform) where
  send_data_to-Fails :
      WritesSome os
      → (fds : List ℤ) (parts : List (List ℕ)) (w : Machine Controller)
      → Fails (send_data_to os fds parts false w)
  unfolding send_data_to
  send_data_to-Fails law [] parts w = refl
  send_data_to-Fails law (fd ∷ fds) parts w =
      go (λ v. send_data_to-Fails law fds parts v) (send_all os fd parts false w)
        (send_all-Fails os law fd parts w)
    where
      go :
          ((v : Machine Controller) → Fails (send_data_to os fds parts false v))
          → (r : Res Bool × Machine Controller) → Fails r
          → Fails (((λ _. r) >>= λ result. send_data_to os fds parts result) w)
      go ih (ret false, v) h = ih v
      go ih (ret true, v) h = absurd (grind (arith, h))
      go ih (err, v) h = h
      go ih (fault, v) h = h
      go ih (more, v) h = h

  send_data_to-Sent :
      WritesSome os
      → (to : ℤ) (fds : List ℤ) (parts : List (List ℕ)) (w : Machine Controller)
      → Sent to (copies to fds (join parts)) w (send_data_to os fds parts true w)
  unfolding send_data_to
  send_data_to-Sent law to [] parts w = sym (append-nil (written to w.trace))
  send_data_to-Sent law to (fd ∷ fds) parts w =
      go (λ v. send_data_to-Sent law to fds parts v) (send_all os fd parts true w)
        (rw⁻¹ (for_parts-join to fd parts) (send_all-Sent os law to fd parts w))
    where
      go :
          ((v : Machine Controller)
            → Sent to (copies to fds (join parts)) v (send_data_to os fds parts true v))
          → (r : Res Bool × Machine Controller) → Sent to (for_fd to fd (join parts)) w r
          → Sent to
              (copies to (fd ∷ fds) (join parts))
              w
              (((λ _. r) >>= λ result. send_data_to os fds parts result) w)
      go ih (ret true, v) h =
          Sent-shift to (for_fd to fd (join parts)) (copies to fds (join parts)) w v
            (send_data_to os fds parts true v) h (ih v)
      go ih (ret false, v) h =
          Fails-Sent to (copies to (fd ∷ fds) (join parts)) w (send_data_to os fds parts false v)
            (send_data_to-Fails law fds parts v)
      go ih (err, v) h = h
      go ih (fault, v) h = h
      go ih (more, v) h = h

  -- Where write() takes a byte at least and data is loaded, `send_data` returns, also if a write
  -- fails; if it succeeds, what a descriptor got is the whole message, in order, as often as it is
  -- among the connected clients, and no other byte.
  pub send_data-Sent :
      WritesSome os
      → (to : ℤ) (w : Machine Controller) (contents : List ℕ) → w.st.so.contents ≡ some contents
      → Sent to
          (copies to (connected w.st.so) (join (data_parts os w.st.so contents)))
          w
          (send_data os w)
  unfolding send_data
  send_data-Sent law to w contents loaded =
      simp (loaded, send_data)
        (send_data_to-Sent law to (connected w.st.so) (data_parts os w.st.so contents) w)

abbrev pub count : ℤ → List ℤ → ℕ
count to [] = 0
count to (fd ∷ fds) = if eqb_ℤ fd to then suc (count to fds) else count to fds

copies-none : (to : ℤ) (fds : List ℤ) (bytes : List ℕ) → count to fds ≡ 0 → copies to fds bytes ≡ []
copies-none to [] bytes absent = refl
copies-none to (fd ∷ fds) bytes absent = elim (Bool-cases (eqb_ℤ fd to)) [
  | inl same ↦ absurd (omega (arith, rw same at absent))
  | inr other ↦ rw other (copies-none to fds bytes (rw other at absent))
]

pub copies-once :
    (to : ℤ) (fds : List ℤ) (bytes : List ℕ) → count to fds ≡ 1 → copies to fds bytes ≡ bytes
copies-once to [] bytes once = absurd (omega arith)
copies-once to (fd ∷ fds) bytes once = elim (Bool-cases (eqb_ℤ fd to)) [
  | inl same ↦
      rw (same, copies-none to fds bytes (omega (arith, rw same at once))) (append-nil bytes)
  | inr other ↦ rw other (copies-once to fds bytes (rw other at once))
]
