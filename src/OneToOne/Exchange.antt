-- ===== src/OneToOne/Exchange.antt =====
-- An exchange of the one-to-one server: exactly the announced bytes are taken from the client, and a
-- whole reply is sent back.
mod Outcomes
unfoldable pub use Outcomes.*
use scalable_server.OneToOne.State.{Server, MsgResult}
use scalable_server.OneToOne.Message.{
  after_header, log, receive_message, receive_body, send_loop, after_part, buffer_size, on_success,
  recv_part, receive_loop, check_fd, check_fd_msg,
}
use scalable_server.Prelude.{
  append-nil, take, sym, take-append-drop, length-drop, drop, ◌%◌, ◌-◌, true, zero, false, min,
  ◌==◌, dec_lt, suc, inl, ◌⊎◌, ◌^◌, refl, inr, ◌<◌, ◌≢◌, ◌≤◌, [], arith, length, ◌+◌, ◌≡◌, ◌∷◌, ℤ,
  ℕ, List,
}
use scalable_server.Os.{
  pure, >>=-ret, eintr, fail, Ret, M, more, fault, err, ret, did, Machine, ok, recv, Res, send,
  Event, Answer, Call, Platform,
}

module _ (os : Platform) where
  recv_part_cases :
      Bounded os
      → (fd : ℤ) (remaining : ℕ) (w : Machine Server)
      → ((n : ℕ) × ((recv_part os fd remaining w).0 ≡ ret (inr n))
          × (received (recv_part os fd remaining w).1.trace ≡ n + received w.trace)
          × (0 < n)
          × (n ≤ remaining))
        ⊎ ((r : MsgResult) × ((recv_part os fd remaining w).0 ≡ ret (inl r))
            × (r ≢ MsgResult.success))
  unfolding recv_part received
  recv_part_cases b fd remaining w =
      go (os.answer w.trace (recv fd (min buffer_size remaining))) refl
    where
      go :
          (a : Ret (List ℕ))
          → os.answer w.trace (recv fd (min buffer_size remaining)) ≡ a
          → ((n : ℕ) × ((recv_part os fd remaining w).0 ≡ ret (inr n))
              × (received (recv_part os fd remaining w).1.trace ≡ n + received w.trace)
              × (0 < n)
              × (n ≤ remaining))
            ⊎ ((r : MsgResult) × ((recv_part os fd remaining w).0 ≡ ret (inl r))
                × (r ≢ MsgResult.success))
      go (ok []) e = inr (MsgResult.closed, rw (e, recv_part), λ q. cc)
      go (ok (x ∷ xs)) e = inl (
        length (x ∷ xs),
        rw (e, recv_part),
        rw (e, recv_part),
        omega arith,
        omega (arith, b.recv_bounded w.trace fd (min buffer_size remaining) (x ∷ xs) e),
      )
      go (fail eintr) e = inr (MsgResult.termination, rw (e, recv_part), λ q. cc)
      go (fail y) e = inr (MsgResult.error, rw (e, recv_part), λ q. cc)

  after_part-Takes :
      Bounded os
      → (fd : ℤ) (remaining : ℕ) (rest : ℕ → M Server MsgResult) (w : Machine Server)
      → ((n : ℕ) (v : Machine Server)
          → 0 < n
          → n ≤ remaining
          → Takes (remaining - n) (received v.trace) (rest n v))
      → Takes remaining (received w.trace) (after_part os fd remaining rest w)
  unfolding after_part
  after_part-Takes b fd remaining rest w h = elim (recv_part_cases b fd remaining w) [
    | inl (n, e, sum, positive, le) ↦
        let v = (recv_part os fd remaining w).1 in
        rw
          (>>=-ret (recv_part os fd remaining) (elim [ inl result ↦ pure result | inr k ↦ rest k ])
            w (inr n) e)
          (Takes-shift remaining n (remaining - n) (received w.trace) (received v.trace) (rest n v)
            (omega arith) sum (h n v positive le))
    | inr (r, e, stops) ↦
        rw
          (>>=-ret (recv_part os fd remaining) (elim [ inl result ↦ pure result | inr k ↦ rest k ])
            w (inl r) e)
          (stop-Takes r _ remaining (received w.trace) stops)
  ]

  -- Where recv() delivers at most what it is asked for, the loop over a message of `remaining` bytes below
  -- 2 ^ 32, with more rounds than bytes, ends with a result, and on success exactly `remaining` bytes have
  -- been received.
  pub receive_loop-Takes :
      Bounded os
      → (rounds remaining : ℕ) (w : Machine Server) → remaining < 2 ^ 32
      → remaining < rounds
      → Takes remaining (received w.trace) (receive_loop os rounds remaining w)
  unfolding receive_loop
  receive_loop-Takes b zero remaining w small enough = absurd (omega arith)
  receive_loop-Takes b (suc rounds) remaining w small enough = elim (dec_lt 0 remaining) [
    | no nothing ↦
        let t : (remaining == 0) ≡ true = ground arith in
        rw (t, receive_loop) (at_end w remaining (omega arith))
    | yes some_left ↦
        let t : (remaining == 0) ≡ false = ground arith in
        rw (t, receive_loop)
          (on_success-Takes (check_fd_msg os w.st.client_fd) _ w remaining (received w.trace)
            (check_fd_msg-Returns os w.st.client_fd w)
            (Takes-shift remaining 0 remaining (received w.trace) _ _ (omega arith)
              (omega (arith, check_fd_msg-quiet os w.st.client_fd w))
              (after_part-Takes b w.st.client_fd remaining _ _ λ n v positive le.
                let m : (remaining + 2 ^ 32 - n) % 2 ^ 32 ≡ remaining - n = omega arith in
                rw m (receive_loop-Takes b rounds (remaining - n) v (omega arith) (omega arith)))))
  ]

  -- The loop that sends the reply, with more rounds than bytes, ends with a result, and on success the bytes
  -- that send() took on the client's descriptor, one call's after the other's, are exactly those of the reply in their order.
  pub send_loop-Gives :
      (rounds : ℕ) (to_send : List ℕ) (w : Machine Server)
      → length to_send < rounds
      → Gives w.st.client_fd to_send (sent w.st.client_fd w.trace) (send_loop os rounds to_send w)
  unfolding send_loop Gives sent
  send_loop-Gives zero to_send w enough = absurd (omega arith)
  send_loop-Gives (suc rounds) [] w enough = sym (append-nil (sent w.st.client_fd w.trace))
  send_loop-Gives (suc rounds) (x ∷ xs) w enough =
      go (λ n v lt. send_loop-Gives rounds (drop n xs) v lt)
        (os.answer w.trace (send w.st.client_fd (x ∷ xs))) refl
    where
      go :
          ((n : ℕ) (v : Machine Server)
            → length (drop n xs) < rounds
            → Gives v.st.client_fd
                (drop n xs)
                (sent v.st.client_fd v.trace)
                (send_loop os rounds (drop n xs) v))
          → (a : Ret ℕ) → os.answer w.trace (send w.st.client_fd (x ∷ xs)) ≡ a
          → Gives w.st.client_fd
              (x ∷ xs)
              (sent w.st.client_fd w.trace)
              (send_loop os (suc rounds) (x ∷ xs) w)
      go ih (fail y) e = rw (e, send_loop) tt
      go ih (ok zero) e = rw (e, send_loop) tt
      go ih (ok (suc n)) e =
          rw (e, send_loop)
            (Gives-shift w.st.client_fd (x ∷ xs) (take (suc n) (x ∷ xs)) (drop n xs)
              (sent w.st.client_fd w.trace) _ _ (sym (take-append-drop (suc n) (x ∷ xs)))
              (sent-send w.st.client_fd (x ∷ xs) (suc n) w.trace)
              (ih n _ (omega (arith, length-drop n xs))))

  pub receive_body-Returns :
      Bounded os
      → (msg_size : ℕ) (w : Machine Server) → msg_size < 2 ^ 32
      → Returns (receive_body os msg_size w)
  unfolding receive_body log
  receive_body-Returns b msg_size w small =
      on_success-Returns (receive_loop os (suc msg_size) msg_size) _ _
        (Takes-Returns msg_size _ _
          (receive_loop-Takes b (suc msg_size) msg_size _ small (omega arith)))
        (Gives-Returns _ _ _ _ (send_loop-Gives _ (os.bytes32 (os.htonl msg_size)) _ (omega arith)))

  after_header-Returns :
      Bounded os
      → (junk : List ℕ) (h : Ret (List ℕ)) (w : Machine Server) → Returns (after_header os junk h w)
  unfolding after_header Returns
  after_header-Returns b junk (ok []) w = tt
  after_header-Returns b junk (ok (x ∷ xs)) w = receive_body-Returns b _ w (omega arith)
  after_header-Returns b junk (fail eintr) w = tt
  after_header-Returns b junk (fail e) w = tt

  -- Where recv() and send() keep to their sizes, the exchange of one message ends with one of its four
  -- results, whatever size the client announces: no loop runs out of rounds.
  pub receive_message-Returns : Bounded os → (w : Machine Server) → Returns (receive_message os w)
  unfolding receive_message
  receive_message-Returns b w =
      on_success-Returns (check_fd_msg os w.st.client_fd) _ w
        (check_fd_msg-Returns os w.st.client_fd w) (after_header-Returns b _ _ _)
