-- ===== src/Poll/Memory.antt =====
-- The buffer of a message: `poll_recv_and_log` frees what it allocates.
use scalable_server.Poll.Messages.{recv_loop-Ends, seen_end, seen_end-empty}
use scalable_server.Poll.State.{Server}
use scalable_server.Poll.Receive.{log, poll_recv_and_log, pointer_size, recv_loop, recv_once}
use Prim.Native.Nat.{suc, ℕ}
use scalable_server.Prelude.{
  ◌<◌, none, Option, zero, refl, inr, ◌^◌, length, ◌%◌, ◌+◌, ◌∙◌, inl, not, ap, ◌&&◌, ltb,
  Bool-cases, suc, ◌==◌, some, arith, [], if◌then◌else◌, ◌≡◌, ℤ, ◌∷◌, ℕ, List,
}
use scalable_server.Os.{
  Ends, pure, check, overlay, ok, fail, more, resume, err, free, recv, fault, Ret, ◌>>=◌, ret, did,
  malloc, Machine, M, Event, Answer, Res, Call, Platform,
}

erase : ℕ → List ℕ → List ℕ
erase p [] = []
erase p (x ∷ xs) = if x == p then xs else x ∷ erase p xs

held_after : (c : Call) → Answer c → List ℕ → List ℕ
unfolding erase
held_after (malloc _) (some p) before = p ∷ before
held_after (free p) _ before = erase p before
held_after _ _ before = before

-- The buffers that a trace allocated with malloc() and did not free.
pub held : List Event → List ℕ
unfolding held_after
held [] = []
held (did c a ∷ t) = held_after c a (held t)

erase-head : (p : ℕ) (xs : List ℕ) → erase p (p ∷ xs) ≡ xs
unfolding erase
erase-head p xs = ground arith

module _ (os : Platform) where
  -- While a message is received in the buffer `p`: it is held still, or it was freed and the code fails.
  Holds : ℕ → List ℕ → Res ℕ × Machine Server → Type 0
  Holds p before (ret n, w) = held w.trace ≡ p ∷ before
  Holds p before (err, w) = held w.trace ≡ before
  Holds p before (fault, w) = Unit
  Holds p before (more, w) = Unit

  -- After that: the same is held as before.
  unfoldable pub Balanced : List ℕ → Res (Unit {0}) × Machine Server → Type 0
  Balanced before (fault, w) = Unit
  Balanced before (more, w) = ⊥
  Balanced before (r, w) = held w.trace ≡ before

  >>=-Holds :
      (p : ℕ) (before : List ℕ) (m : M Server ℕ) (f : ℕ → M Server ℕ) (w : Machine Server)
      → Holds p before (m w)
      → ((n : ℕ) (v : Machine Server) → held v.trace ≡ p ∷ before → Holds p before (f n v))
      → Holds p before ((m >>= f) w)
  unfolding Holds
  >>=-Holds p before m f w = go (m w)
    where
      go :
          (r : Res ℕ × Machine Server)
          → Holds p before r
          → ((n : ℕ) (v : Machine Server) → held v.trace ≡ p ∷ before → Holds p before (f n v))
          → Holds p before (resume r f)
      go (ret n, v) h k = k n v h
      go (err, v) h k = h
      go (fault, v) h k = tt
      go (more, v) h k = tt

  recv_once-Holds :
      (fd : ℤ) (p size got : ℕ) (before : List ℕ) (w : Machine Server)
      → held w.trace ≡ p ∷ before
      → Holds p before (recv_once os fd p size got w)
  unfolding recv_once Holds held
  recv_once-Holds fd p size got before w h = go (os.answer w.trace (recv fd pointer_size)) refl
    where
      go :
          (r : Ret (List ℕ))
          → os.answer w.trace (recv fd pointer_size) ≡ r
          → Holds p before (recv_once os fd p size got w)
      go (fail x) e = rw (e, recv_once) (ap (erase p) h ∙ erase-head p before)
      go (ok message) e = elim (Bool-cases (ltb (size + 1) (got + length message))) [
        | inl over ↦ rw (e, recv_once, over) tt
        | inr fits ↦ rw (e, recv_once, fits) h
      ]

  recv_loop-Holds :
      (rounds : ℕ) (fd : ℤ) (p size bytes got : ℕ) (before : List ℕ) (w : Machine Server)
      → held w.trace ≡ p ∷ before
      → Holds p before (recv_loop os rounds fd p size bytes got w)
  unfolding recv_loop Holds
  recv_loop-Holds zero fd p size bytes got before w h = tt
  recv_loop-Holds (suc rounds) fd p size bytes got before w h =
      elim (Bool-cases (ltb got size && not (bytes == 0))) [
        | inl go ↦
            rw (go, recv_loop)
              (>>=-Holds p before (recv_once os fd p size got) _ w
                (recv_once-Holds fd p size got before w h)
                λ n v same. recv_loop-Holds rounds fd p size n ((got + n) % 2 ^ 32) before v same)
        | inr stop ↦ rw (stop, recv_loop) h
      ]

  >>=-Balanced :
      (p : ℕ) (before : List ℕ) (m : M Server ℕ) (f : ℕ → M Server (Unit {0})) (w : Machine Server)
      → Holds p before (m w)
      → ((n : ℕ) (v : Machine Server) → held v.trace ≡ p ∷ before → Balanced before (f n v))
      → Ends (m w)
      → Balanced before ((m >>= f) w)
  unfolding Holds Balanced
  >>=-Balanced p before m f w = go (m w)
    where
      go :
          (r : Res ℕ × Machine Server)
          → Holds p before r
          → ((n : ℕ) (v : Machine Server) → held v.trace ≡ p ∷ before → Balanced before (f n v))
          → Ends r
          → Balanced before (resume r f)
      go (ret n, v) h k e = k n v h
      go (err, v) h k e = h
      go (fault, v) h k e = tt
      go (more, v) h k e = e

  reply-Balanced :
      (r : Ret ℕ) (before : List ℕ) (v : Machine Server)
      → held v.trace ≡ before
      → Balanced before ((check r >>= λ _. pure tt) v)
  unfolding Balanced
  reply-Balanced (ok n) before v h = h
  reply-Balanced (fail x) before v h = h

  -- The size of the message that a `recv` of `header` announces.
  abbrev pub announced : ℤ → List ℕ → Machine Server → ℕ
  announced fd header w =
      os.ntohl (os.word32 (overlay header (os.scratch (did (recv fd 4) (ok header) ∷ w.trace))))
      % 2 ^ 32

  -- Receiving a message whose announced size is below 2 ^ 32 - 1 ends within its rounds and, unless it writes
  -- out of its buffer, leaves exactly those buffers allocated that were allocated before, also when malloc(),
  -- a recv() or the send() fails.
  pub poll_recv_and_log-Balanced :
      (fd : ℤ) (fd_num : ℕ) (w : Machine Server)
      → ((header : List ℕ)
          → os.answer w.trace (recv fd 4) ≡ ok header
          → announced fd header w + 1 < 2 ^ 32)
      → Balanced (held w.trace) (poll_recv_and_log os fd fd_num w)
  unfolding poll_recv_and_log log held Balanced seen_end
  poll_recv_and_log-Balanced fd fd_num w small = received (os.answer w.trace (recv fd 4)) refl
    where
      allocated :
          (header : List ℕ)
          → os.answer w.trace (recv fd 4) ≡ ok header
          → (b : Option ℕ)
          → os.answer (did (recv fd 4) (ok header) ∷ w.trace) (malloc (announced fd header w + 1))
            ≡ b
          → Balanced (held w.trace) (poll_recv_and_log os fd fd_num w)
      allocated header e none m = rw (e, m, poll_recv_and_log) refl
      allocated header e (some p) m =
          rw (e, m, poll_recv_and_log)
            (>>=-Balanced p (held w.trace) (recv_loop os _ fd p _ (length header) 0) _ _
              (recv_loop-Holds _ fd p _ (length header) 0 (held w.trace) _ refl)
              (λ n v h.
                reply-Balanced _ (held w.trace) _ (ap (erase p) h ∙ erase-head p (held w.trace)))
              (recv_loop-Ends os fd p (announced fd header w) (length header) _ (small header e)
                (seen_end-empty fd 4 header w.trace)))

      received :
          (r : Ret (List ℕ))
          → os.answer w.trace (recv fd 4) ≡ r
          → Balanced (held w.trace) (poll_recv_and_log os fd fd_num w)
      received (fail x) e = rw (e, poll_recv_and_log) refl
      received (ok header) e = allocated header e _ refl
