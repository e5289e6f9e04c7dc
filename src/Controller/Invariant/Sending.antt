-- ===== src/Controller/Invariant/Sending.antt =====
-- What client-controller/src/connection.c and util.c send leaves the invariant of the controller's state as it is.
use Prim.Native.Nat.{suc, ℕ}
use scalable_server.Prelude.{
  if◌then◌else◌, ◌==◌, inr, false, inl, Option-cases, Bool-cases, refl, ◌≡◌, [], true, drop, ◌&&◌,
  ◌∷◌, length, zero, suc, Bool, List, ℤ, ℕ,
}
use scalable_server.Controller.State.{connected, Controller}
use scalable_server.Controller.Util.{write_loop, write_fully}
use scalable_server.Controller.Connection.{
  data_parts, is_some, start, send_start, send_data_to, send_each, send_all, send_data,
}
use scalable_server.Os.{
  more, fault, err, ret, did, ok, fail, pure, ◌>>◌, put, write, get, Ret, Res, ◌>>=◌, >>=-keeps,
  Machine, attempt, Platform, M,
}
use scalable_server.Controller.Accepting.{IsValid}

-- The machine stays valid, however the code ends.
abbrev pub Keeps : {A : Type 0} → M Controller A → Type 0
Keeps m = (w : Machine Controller) → IsValid w.st.so → IsValid (m w).1.st.so

pub >>=-Keeps :
    {A B : Type 0} (m : M Controller A) (f : A → M Controller B)
    → Keeps m
    → ((a : A) → Keeps (f a))
    → Keeps (m >>= f)
>>=-Keeps m f first next w valid =
    >>=-keeps (λ v. IsValid v.st.so) m f w (first w valid) (λ a e h. next a (m w).1 h)

pub attempt-Keeps : {A : Type 0} (m : M Controller A) → Keeps m → Keeps (attempt m)
attempt-Keeps {A = A} m first w valid = go (m w) (first w valid)
  where
    go : (r : Res A × Machine Controller) → IsValid r.1.st.so → IsValid (attempt (λ _. r) w).1.st.so
    go (ret a, v) h = h
    go (err, v) h = h
    go (fault, v) h = h
    go (more, v) h = h

pub if-Keeps :
    {A : Type 0} (b : Bool) (m n : M Controller A) → Keeps m → Keeps n → Keeps (if b then m else n)
if-Keeps true m n yes_case no_case w valid = yes_case w valid
if-Keeps false m n yes_case no_case w valid = no_case w valid

module _ (os : Platform) where
  write_loop-Keeps : (rounds : ℕ) (fd : ℤ) (left : List ℕ) → Keeps (write_loop os rounds fd left)
  unfolding write_loop
  write_loop-Keeps zero fd left w valid = valid
  write_loop-Keeps (suc rounds) fd [] w valid = valid
  write_loop-Keeps (suc rounds) fd (x ∷ xs) w valid =
      go (λ n. write_loop-Keeps rounds fd (drop n (x ∷ xs))) (os.answer w.trace (write fd (x ∷ xs)))
        refl
    where
      go :
          ((n : ℕ) → Keeps (write_loop os rounds fd (drop n (x ∷ xs))))
          → (a : Ret ℕ) → os.answer w.trace (write fd (x ∷ xs)) ≡ a
          → IsValid (write_loop os (suc rounds) fd (x ∷ xs) w).1.st.so
      go ih (fail e) same = rw (same, write_loop) valid
      go ih (ok n) same =
          rw (same, write_loop)
            (ih n (record w { trace = did (write fd (x ∷ xs)) (ok n) ∷ w.trace }) valid)

  write_fully-Keeps : (fd : ℤ) (bytes : List ℕ) → Keeps (write_fully os fd bytes)
  unfolding write_fully
  write_fully-Keeps fd bytes = write_loop-Keeps (suc (length bytes)) fd bytes

  send_each-Keeps :
      (fds : List ℤ) (bytes : List ℕ) (result : Bool) → Keeps (send_each os fds bytes result)
  unfolding send_each
  send_each-Keeps [] bytes result w valid = valid
  send_each-Keeps (fd ∷ fds) bytes result w valid =
      >>=-Keeps (attempt (write_fully os fd bytes)) (λ sent. send_each os fds bytes (is_some sent))
        (attempt-Keeps (write_fully os fd bytes) (write_fully-Keeps fd bytes))
        (λ sent. send_each-Keeps fds bytes (is_some sent)) w valid

  pub send_start-Keeps : Keeps (send_start os)
  unfolding send_start
  send_start-Keeps w valid =
      >>=-keeps (λ v. IsValid v.st.so)
        (send_each os (connected w.st.so) (os.bytes16 (os.htons start)) true)
        (λ result.
          get >>= λ t. put (record t { so = record t.so { started = true } }) >> pure result)
        w (send_each-Keeps (connected w.st.so) (os.bytes16 (os.htons start)) true w valid)
        (λ result e h. record { fds_length = h.fds_length; conns_bound = h.conns_bound })

  send_all-Keeps :
      (fd : ℤ) (parts : List (List ℕ)) (result : Bool) → Keeps (send_all os fd parts result)
  unfolding send_all
  send_all-Keeps fd [] result w valid = valid
  send_all-Keeps fd (part ∷ parts) result w valid =
      >>=-Keeps (attempt (write_fully os fd part))
        (λ sent. send_all os fd parts (result && is_some sent))
        (attempt-Keeps (write_fully os fd part) (write_fully-Keeps fd part))
        (λ sent. send_all-Keeps fd parts (result && is_some sent)) w valid

  send_data_to-Keeps :
      (fds : List ℤ) (parts : List (List ℕ)) (result : Bool)
      → Keeps (send_data_to os fds parts result)
  unfolding send_data_to
  send_data_to-Keeps [] parts result w valid = valid
  send_data_to-Keeps (fd ∷ fds) parts result w valid =
      >>=-Keeps (send_all os fd parts result) (send_data_to os fds parts)
        (send_all-Keeps fd parts result) (send_data_to-Keeps fds parts) w valid

  pub send_data-Keeps : Keeps (send_data os)
  unfolding send_data
  send_data-Keeps w valid = elim (Option-cases w.st.so.contents) [
    | inl gone ↦ elim (Bool-cases (w.st.so.data_size == 0)) [
      | inl nothing ↦
          simp (gone, nothing)
            (send_data_to-Keeps (connected w.st.so) (data_parts os w.st.so []) true w valid)
      | inr something ↦ simp (gone, something) valid
    ]
    | inr (contents, there) ↦
        simp there
          (send_data_to-Keeps (connected w.st.so) (data_parts os w.st.so contents) true w valid)
  ]
