-- ===== src/Poll/Messages.antt =====
-- What the poll server receives of a message: `recv_loop` counts exactly the bytes that `recv` gave,
-- ends within the rounds it is given, and stays in its buffer unless the peer sends too much.
use scalable_server.Poll.State.{Server}
use scalable_server.Poll.Receive.{pointer_size, recv_loop, recv_once}
use scalable_server.Os.{
  Ends, >>=-fault, >>=-err, >>=-ret, fail, more, Ret, fault, err, ret, ok, did, Machine, recv, Res,
  Event, Platform,
}
use scalable_server.Prelude.{
  ◌*◌, false, true, Bool, dec_lt, ◌%◌, ◌==◌, not, ◌&&◌, refl, arith, ltb, Bool-cases, inl, inr,
  zero, suc, ◌⊎◌, ◌^◌, ◌<◌, ◌≤◌, [], ◌+◌, length, ◌≡◌, ◌∷◌, ℤ, ℕ, List,
}

-- Bytes that all calls of `recv` in a trace delivered.
pub received : List Event → ℕ
received [] = 0
received (did (recv fd n) (ok message) ∷ t) = length message + received t
received (_ ∷ t) = received t

-- Whether some call of `recv` met the end of its stream.
unfoldable pub seen_end : List Event → Bool
seen_end [] = false
seen_end (did (recv fd n) (ok []) ∷ t) = true
seen_end (_ ∷ t) = seen_end t

pub seen_end-empty :
    (fd : ℤ) (n : ℕ) (message : List ℕ) (t : List Event)
    → length message ≡ 0
    → seen_end (did (recv fd n) (ok message) ∷ t) ≡ true
unfolding seen_end
seen_end-empty fd n [] t h = refl
seen_end-empty fd n (x ∷ xs) t h = absurd (omega arith)

module _ (os : Platform) where
  -- What a round of the loop may do: deliver some bytes inside the buffer; fail, having freed the
  -- buffer; or write out of the buffer.
  recv_once_cases :
      (fd : ℤ) (buffer size got : ℕ) (w : Machine Server)
      → ((n : ℕ) × ((recv_once os fd buffer size got w).0 ≡ ret n)
          × (received (recv_once os fd buffer size got w).1.trace ≡ n + received w.trace)
          × (got + n ≤ size + 1)
          × (n ≡ 0 → seen_end (recv_once os fd buffer size got w).1.trace ≡ true))
        ⊎ (((recv_once os fd buffer size got w).0 ≡ err)
            ⊎ ((recv_once os fd buffer size got w).0 ≡ fault))
  unfolding recv_once received
  recv_once_cases fd buffer size got w = go (os.answer w.trace (recv fd pointer_size)) refl
    where
      go :
          (r : Ret (List ℕ))
          → os.answer w.trace (recv fd pointer_size) ≡ r
          → ((n : ℕ) × ((recv_once os fd buffer size got w).0 ≡ ret n)
              × (received (recv_once os fd buffer size got w).1.trace ≡ n + received w.trace)
              × (got + n ≤ size + 1)
              × (n ≡ 0 → seen_end (recv_once os fd buffer size got w).1.trace ≡ true))
            ⊎ (((recv_once os fd buffer size got w).0 ≡ err)
                ⊎ ((recv_once os fd buffer size got w).0 ≡ fault))
      go (fail x) e = inr (inl (rw (e, recv_once)))
      go (ok message) e = elim (Bool-cases (ltb (size + 1) (got + length message))) [
        | inl over ↦ inr (inr (rw (e, recv_once, over)))
        | inr fits ↦ inl (
          length message,
          rw (e, recv_once, fits),
          rw (e, recv_once, fits),
          ground arith,
          λ z. rw (e, recv_once, fits) (seen_end-empty fd pointer_size message w.trace z),
        )
      ]

  -- The outcome of the loop from `got` bytes on: the count of all bytes received, which is at least
  -- `size` unless the peer has closed, or an error or a write out of bounds.
  unfoldable pub Received : ℕ → ℕ → ℕ → Res ℕ × Machine Server → Type 0
  Received size got before (ret n, w) =
      (n ≤ size + 1)
      × (n + before ≡ got + received w.trace)
      × ((size ≤ n) ⊎ (seen_end w.trace ≡ true))
  Received size got before (err, w) = Unit
  Received size got before (fault, w) = Unit
  Received size got before (more, w) = ⊥

  Received-shift :
      (size got n before before' : ℕ) (r : Res ℕ × Machine Server)
      → before' ≡ n + before
      → Received size (got + n) before' r
      → Received size got before r
  unfolding Received
  Received-shift size got n before before' (ret k, w) e h = (h.0, omega arith, h.2)
  Received-shift size got n before before' (err, w) e h = tt
  Received-shift size got n before before' (fault, w) e h = tt
  Received-shift size got n before before' (more, w) e h = h

  stops_at_end :
      (rounds : ℕ) (fd : ℤ) (buffer size got : ℕ) (w : Machine Server)
      → 0 < rounds
      → recv_loop os rounds fd buffer size 0 got w ≡ (ret got, w)
  unfolding recv_loop
  stops_at_end zero fd buffer size got w h = absurd (omega arith)
  stops_at_end (suc rounds) fd buffer size got w h = ground arith

  -- For a message of `size` bytes, with `size + 1` below 2 ^ 32 (the count of 32 bits does not wrap), from `got` bytes on and with more rounds
  -- than the bytes that still fit in the buffer, the loop ends within its rounds. If it returns a count, that
  -- is the number of all bytes received, at most `size + 1`, and at least `size` unless the peer has closed.
  pub recv_loop-Received :
      (rounds : ℕ) (fd : ℤ) (buffer size bytes got : ℕ) (w : Machine Server)
      → size + 1 < 2 ^ 32
      → got ≤ size + 1
      → size + 1 < rounds + got
      → (bytes ≡ 0 → seen_end w.trace ≡ true)
      → Received size got (received w.trace) (recv_loop os rounds fd buffer size bytes got w)
  unfolding recv_loop Received
  recv_loop-Received zero fd buffer size bytes got w small fits enough ends = absurd (omega arith)
  recv_loop-Received (suc rounds) fd buffer size bytes got w small fits enough ends =
      elim (Bool-cases (ltb got size && not (bytes == 0))) [
        | inr stop ↦ rw (stop, recv_loop) (fits, refl, stopped stop)
        | inl go ↦
            rw (go, recv_loop)
              (elim (recv_once_cases fd buffer size got w) [
                | inl (n, e, sum, room, ended) ↦
                    let w' = (recv_once os fd buffer size got w).1 in
                    rw
                      (>>=-ret (recv_once os fd buffer size got)
                        (λ k. recv_loop os rounds fd buffer size k ((got + k) % 2 ^ 32)) w n e)
                      (elim (dec_lt 0 n) [
                        | yes some_bytes ↦
                            let m : (got + n) % 2 ^ 32 ≡ got + n = omega arith in
                            rw m (
                              Received-shift size got n (received w.trace) (received w'.trace) _ sum
                                (recv_loop-Received rounds fd buffer size n (got + n) w' small room
                                  (omega arith) (λ z. absurd (omega arith))))
                        | no none_left ↦
                            let z : n ≡ 0 = omega arith in
                            let m : (got + n) % 2 ^ 32 ≡ got = omega arith in
                            rw (m, z, stops_at_end rounds fd buffer size got w' (ground arith))
                              (fits, omega (arith, sum), inr (ended z))
                      ])
                | inr (inl e) ↦
                    rw
                      (>>=-err (recv_once os fd buffer size got)
                        (λ k. recv_loop os rounds fd buffer size k ((got + k) % 2 ^ 32)) w e)
                      tt
                | inr (inr e) ↦
                    rw
                      (>>=-fault (recv_once os fd buffer size got)
                        (λ k. recv_loop os rounds fd buffer size k ((got + k) % 2 ^ 32)) w e)
                      tt
              ])
      ]
    where
      stopped :
          (ltb got size && not (bytes == 0)) ≡ false → (size ≤ got) ⊎ (seen_end w.trace ≡ true)
      stopped stop = elim (dec_lt got size) [
        | yes below ↦ inr (ends (ground arith))
        | no above ↦ inl (omega arith)
      ]

  Received-Ends :
      (size got before : ℕ) (r : Res ℕ × Machine Server) → Received size got before r → Ends r
  unfolding Received
  Received-Ends size got before (ret n, w) h = tt
  Received-Ends size got before (err, w) h = tt
  Received-Ends size got before (fault, w) h = tt
  Received-Ends size got before (more, w) h = h

  pub recv_loop-Ends :
      (fd : ℤ) (buffer size bytes : ℕ) (w : Machine Server)
      → size + 1 < 2 ^ 32
      → (bytes ≡ 0 → seen_end w.trace ≡ true)
      → Ends (recv_loop os (suc (suc size)) fd buffer size bytes 0 w)
  recv_loop-Ends fd buffer size bytes w small ends = Received-Ends size 0 (received w.trace) _ (
      recv_loop-Received (suc (suc size)) fd buffer size bytes 0 w small (omega arith) (omega arith)
        ends)

  -- A call that delivers all the bytes it was asked for writes out of the buffer as soon as fewer than
  -- seven bytes of the message are missing.
  recv_once_overflows :
      (fd : ℤ) (buffer size got : ℕ) (w : Machine Server) (message : List ℕ)
      → os.answer w.trace (recv fd pointer_size) ≡ ok message
      → length message ≡ pointer_size
      → got ≤ size
      → size < got + 7
      → (recv_once os fd buffer size got w).0 ≡ fault
  unfolding recv_once
  recv_once_overflows fd buffer size got w message e full below near =
      rw (e, recv_once) (ground arith)

  -- The peer always has more to send than the loop asks for.
  pub record Eager : Type 0 where
    pub message : List Event → ℤ → List ℕ
    pub delivers :
        (h : List Event) (fd : ℤ) → os.answer h (recv fd pointer_size) ≡ ok (message h fd)
    pub full : (h : List Event) (fd : ℤ) → length (message h fd) ≡ pointer_size

  recv_once_fits :
      (e : Eager) (fd : ℤ) (buffer size got : ℕ) (w : Machine Server)
      → got + 8 ≤ size + 1
      → (recv_once os fd buffer size got w).0 ≡ ret 8
  unfolding recv_once
  recv_once_fits e fd buffer size got w room =
      rw (e.delivers w.trace fd, recv_once) (ground (arith, e.full w.trace fd))

  recv_loop_overflows_from :
      Eager
      → (rounds : ℕ) (fd : ℤ) (buffer size bytes k : ℕ) (w : Machine Server) → size + 1 < 2 ^ 32
      → 0 < bytes
      → 0 < size % 8
      → size % 8 < 7
      → 8 * k ≤ size
      → size < rounds + 8 * k
      → (recv_loop os rounds fd buffer size bytes (8 * k) w).0 ≡ fault
  unfolding recv_loop
  recv_loop_overflows_from e zero fd buffer size bytes k w small some low high below enough =
      absurd (omega arith)
  recv_loop_overflows_from e (suc rounds) fd buffer size bytes k w small some low high below
        enough =
      let go : (ltb (8 * k) size && not (bytes == 0)) ≡ true = ground arith in
      rw (go, recv_loop)
        (elim (dec_lt (size + 1) (8 * k + 8)) [
          | yes over ↦ rw (
              >>=-fault (recv_once os fd buffer size (8 * k))
                (λ n. recv_loop os rounds fd buffer size n ((8 * k + n) % 2 ^ 32)) w
                (recv_once_overflows fd buffer size (8 * k) w (e.message w.trace fd)
                  (e.delivers w.trace fd) (e.full w.trace fd) below (omega arith)))
          | no under ↦
              let m : (8 * k + 8) % 2 ^ 32 ≡ 8 * suc k = omega arith in
              rw
                (
                  >>=-ret (recv_once os fd buffer size (8 * k))
                      (λ n. recv_loop os rounds fd buffer size n ((8 * k + n) % 2 ^ 32)) w 8
                      (recv_once_fits e fd buffer size (8 * k) w (omega arith)),
                  m,
                )
                (recv_loop_overflows_from e rounds fd buffer size 8 (suc k) _ small (omega arith)
                  low high (omega arith) (omega arith))
        ])

  -- Where each `recv` delivers the eight bytes that it is asked for, the loop writes out of its buffer for
  -- every message of a size below 2 ^ 32 - 1 that leaves a rest of 1 to 6 when divided by 8.
  pub recv_loop-overflows :
      Eager
      → (fd : ℤ) (buffer size bytes : ℕ) (w : Machine Server) → size + 1 < 2 ^ 32
      → 0 < bytes
      → 0 < size % 8
      → size % 8 < 7
      → (recv_loop os (suc (suc size)) fd buffer size bytes 0 w).0 ≡ fault
  recv_loop-overflows e fd buffer size bytes w small some low high =
      recv_loop_overflows_from e (suc (suc size)) fd buffer size bytes 0 w small some low high
        (omega arith) (omega arith)
