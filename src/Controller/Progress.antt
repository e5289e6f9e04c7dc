-- ===== src/Controller/Progress.antt =====
-- What the controller's loop calls (client-controller/src/handle.c and connection.c) returns or fails, and forgets no call.
use scalable_server.Controller.Connection.{
  data_parts, start, is_some, send_start, send_data_to, send_each, send_all, send_data,
}
use scalable_server.Controller.Handle.{
  first_line, line_max, start_command, eqb_text, signal_handler, States, run_command, wait_started,
  run_line, handle_stdin, quits, send_started, wait_duration, handle_accept,
}
use scalable_server.Controller.Util.{write_fully, write_loop}
use scalable_server.Controller.State.{connected, Controller}
use scalable_server.Prelude.{
  take, pos, none, inr, ◌==◌, Bool-cases, some, inl, Option, ◌&&◌, Option-cases, refl, [], zero,
  length-drop, ◌≡◌, drop, ◌∷◌, suc, ◌<◌, false, List, ◌≤◌, true, length, ℤ, ℕ, if◌then◌else◌, arith,
  Bool,
}
use scalable_server.Controller.Writing.{WritesSome}
use scalable_server.Os.{
  Makes-later, overlay, read, ◌>>◌, put, get, sleep, call, did, ok, fail, write, Ret, more, fault,
  err, ret, Res, attempt, ◌>>=◌, M, pure, Platform, Machine, Makes, resume-Makes,
}

-- A function that does not run out of rounds and forgets no call.
abbrev pub Goes : {A : Type 0} → M Controller A → Type 0
Goes m = (w : Machine Controller) → Makes 0 w (m w)

pub >>=-Goes :
    {A B : Type 0} (m : M Controller A) (f : A → M Controller B)
    → Goes m
    → ((a : A) → Goes (f a))
    → Goes (m >>= f)
>>=-Goes m f first next w = resume-Makes 0 0 w (m w) f (first w) next

pub if-Goes :
    {A : Type 0} (b : Bool) (m n : M Controller A) → Goes m → Goes n → Goes (if b then m else n)
if-Goes true m n yes_case no_case w = yes_case w
if-Goes false m n yes_case no_case w = no_case w

pub pure-Goes : {A : Type 0} (a : A) → Goes (pure a)
pure-Goes a w = omega arith

-- The same, and no call is forgotten on failure either.
abbrev Longer : {A : Type 0} → Machine Controller → Res A × Machine Controller → Type 0
Longer w (ret a, v) = length w.trace ≤ length v.trace
Longer w (err, v) = length w.trace ≤ length v.trace
Longer w (fault, v) = Unit {0}
Longer w (more, v) = ⊥

Longer-later :
    {A : Type 0} (w v : Machine Controller) (r : Res A × Machine Controller)
    → length w.trace ≤ length v.trace
    → Longer v r
    → Longer w r
Longer-later w v (ret a, u) later h = omega arith
Longer-later w v (err, u) later h = omega arith
Longer-later w v (fault, u) later h = h
Longer-later w v (more, u) later h = h

attempt-Goes :
    {A : Type 0} (m : M Controller A)
    → ((w : Machine Controller) → Longer w (m w))
    → Goes (attempt m)
attempt-Goes {A = A} m h w = go (m w) (h w)
  where
    go : (r : Res A × Machine Controller) → Longer w r → Makes 0 w (attempt (λ _. r) w)
    go (ret a, v) k = omega arith
    go (err, v) k = omega arith
    go (fault, v) k = k
    go (more, v) k = k

module _ (os : Platform) where
  write_loop-Longer :
      WritesSome os
      → (rounds : ℕ) (fd : ℤ) (left : List ℕ) (w : Machine Controller) → length left < rounds
      → Longer w (write_loop os rounds fd left w)
  unfolding write_loop
  write_loop-Longer law zero fd left w enough = absurd (omega arith)
  write_loop-Longer law (suc rounds) fd [] w enough = omega arith
  write_loop-Longer law (suc rounds) fd (x ∷ xs) w enough =
      go (λ n v lt. write_loop-Longer law rounds fd (drop n xs) v lt)
        (os.answer w.trace (write fd (x ∷ xs))) refl
    where
      go :
          ((n : ℕ) (v : Machine Controller)
            → length (drop n xs) < rounds
            → Longer v (write_loop os rounds fd (drop n xs) v))
          → (a : Ret ℕ) → os.answer w.trace (write fd (x ∷ xs)) ≡ a
          → Longer w (write_loop os (suc rounds) fd (x ∷ xs) w)
      go ih (fail e) same = rw (same, write_loop) (omega arith)
      go ih (ok zero) same = absurd (omega (arith, law.write_some w.trace fd x xs zero same))
      go ih (ok (suc n)) same =
          let v = record w { trace = did (write fd (x ∷ xs)) (ok (suc n)) ∷ w.trace } in
          rw (same, write_loop)
            (Longer-later w v (write_loop os rounds fd (drop n xs) v) (omega arith)
              (ih n v (omega (arith, length-drop n xs))))

module _ (os : Platform) (law : WritesSome os) where
  write_fully-Goes : (fd : ℤ) (bytes : List ℕ) → Goes (attempt (write_fully os fd bytes))
  unfolding write_fully
  write_fully-Goes fd bytes =
      attempt-Goes (write_fully os fd bytes)
        λ w. write_loop-Longer os law (suc (length bytes)) fd bytes w (omega arith)

  send_each-Goes :
      (fds : List ℤ) (bytes : List ℕ) (result : Bool) → Goes (send_each os fds bytes result)
  unfolding send_each
  send_each-Goes [] bytes result = pure-Goes result
  send_each-Goes (fd ∷ fds) bytes result =
      >>=-Goes (attempt (write_fully os fd bytes)) (λ sent. send_each os fds bytes (is_some sent))
        (write_fully-Goes fd bytes) (λ sent. send_each-Goes fds bytes (is_some sent))

  send_start-Goes : Goes (send_start os)
  unfolding send_start
  send_start-Goes w =
      resume-Makes 0 0 w (send_each os (connected w.st.so) (os.bytes16 (os.htons start)) true w)
        (λ result.
          get >>= λ t. put (record t { so = record t.so { started = true } }) >> pure result)
        (send_each-Goes (connected w.st.so) (os.bytes16 (os.htons start)) true w)
        (λ result v. omega arith)

  send_all-Goes :
      (fd : ℤ) (parts : List (List ℕ)) (result : Bool) → Goes (send_all os fd parts result)
  unfolding send_all
  send_all-Goes fd [] result = pure-Goes result
  send_all-Goes fd (part ∷ parts) result =
      >>=-Goes (attempt (write_fully os fd part))
        (λ sent. send_all os fd parts (result && is_some sent)) (write_fully-Goes fd part)
        (λ sent. send_all-Goes fd parts (result && is_some sent))

  send_data_to-Goes :
      (fds : List ℤ) (parts : List (List ℕ)) (result : Bool)
      → Goes (send_data_to os fds parts result)
  unfolding send_data_to
  send_data_to-Goes [] parts result = pure-Goes result
  send_data_to-Goes (fd ∷ fds) parts result =
      >>=-Goes (send_all os fd parts result) (send_data_to os fds parts)
        (send_all-Goes fd parts result) (send_data_to-Goes fds parts)

  send_data-Goes : Goes (send_data os)
  unfolding send_data
  send_data-Goes w = elim (Option-cases w.st.so.contents) [
    | inl gone ↦ elim (Bool-cases (w.st.so.data_size == 0)) [
      | inl nothing ↦
          simp (gone, nothing)
            (send_data_to-Goes (connected w.st.so) (data_parts os w.st.so []) true w)
      | inr something ↦ simp (gone, something) tt
    ]
    | inr (contents, there) ↦
        simp there (send_data_to-Goes (connected w.st.so) (data_parts os w.st.so contents) true w)
  ]

  pub quits-Goes : Goes (quits os)
  unfolding quits signal_handler
  quits-Goes w = grind arith

  wait_duration-Goes : (left : ℕ) → Goes (wait_duration os left)
  unfolding wait_duration
  wait_duration-Goes zero = pure-Goes tt
  wait_duration-Goes (suc left) =
      >>=-Goes (quits os)
        (elim [ true ↦ pure tt | false ↦ call os (sleep 1) >>= λ _. wait_duration os left ])
        quits-Goes (go (wait_duration-Goes left))
    where
      go :
          Goes (wait_duration os left)
          → (b : Bool)
          → Goes
              (elim b [ true ↦ pure tt | false ↦ call os (sleep 1) >>= λ _. wait_duration os left ])
      go ih true = pure-Goes tt
      go ih false =
          >>=-Goes (call os (sleep 1)) (λ _. wait_duration os left) (λ v. omega arith) (λ _. ih)

  pub handle_accept-Goes : Goes (handle_accept os)
  unfolding handle_accept
  handle_accept-Goes w = grind arith

  wait_started-Goes : (sent : Bool) → Goes (wait_started os sent)
  unfolding wait_started
  wait_started-Goes sent w =
      if-Goes sent (wait_duration os w.st.wait_period_sec >>= λ _. pure States.started)
        (pure States.error)
        (>>=-Goes (wait_duration os w.st.wait_period_sec) (λ _. pure States.started)
          (wait_duration-Goes w.st.wait_period_sec) (λ _. pure-Goes States.started))
        (pure-Goes States.error) w

  send_started-Goes : (begun : Bool) → Goes (send_started os begun)
  unfolding send_started
  send_started-Goes begun =
      if-Goes begun (send_data os >>= wait_started os) (pure States.error)
        (>>=-Goes (send_data os) (wait_started os) send_data-Goes wait_started-Goes)
        (pure-Goes States.error)

  run_line-Goes : (line : Option (List ℕ)) → Goes (run_line os line)
  unfolding run_line run_command
  run_line-Goes none = λ w. tt
  run_line-Goes (some line) =
      if-Goes (eqb_text line start_command) (send_start os >>= send_started os)
        (pure States.success)
        (>>=-Goes (send_start os) (send_started os) send_start-Goes send_started-Goes)
        (pure-Goes States.success)

  pub handle_stdin-Goes : Goes (handle_stdin os)
  unfolding handle_stdin
  handle_stdin-Goes w = go (os.answer w.trace (read (pos 0) line_max)) refl
    where
      after : List ℕ → Machine Controller
      after input = record w { trace = did (read (pos 0) line_max) (ok input) ∷ w.trace }

      go :
          (a : Ret (List ℕ))
          → os.answer w.trace (read (pos 0) line_max) ≡ a
          → Makes 0 w (handle_stdin os w)
      go (fail e) same = simp same (omega arith)
      go (ok input) same =
          let line = first_line (take line_max (overlay input (os.scratch (after input).trace))) in
          simp same (
            Makes-later 0 w (after input) (run_line os line (after input)) (omega arith)
              (run_line-Goes line (after input)))
