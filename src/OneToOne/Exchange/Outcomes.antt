-- ===== src/OneToOne/Exchange/Outcomes.antt =====
-- How the steps of an exchange of the one-to-one server end, and the bytes that they take and give.
use scalable_server.OneToOne.State.{Server, MsgResult}
use scalable_server.OneToOne.Message.{on_success, check_fd, check_fd_msg}
use scalable_server.Prelude.{
  eqb_ℤ-refl, eqb_ℤ, if◌then◌else◌, append_assoc, take, ◌++◌, ◌∙◌, ap, sym, refl, ◌≢◌, ◌≤◌, [],
  arith, length, ◌+◌, ◌≡◌, ◌∷◌, ℤ, ℕ, List,
}
use scalable_server.Os.{
  M, more, fault, err, ret, did, Machine, ok, recv, Res, send, Event, Answer, Call, Platform,
}

-- How many bytes the calls of `recv`, those with MSG_WAITALL left out, delivered.
unfoldable received_by : (c : Call) → Answer c → ℕ
received_by (recv fd n) (ok message) = length message
received_by _ _ = 0

unfoldable pub received : List Event → ℕ
unfolding received_by
received [] = 0
received (did c a ∷ t) = received_by c a + received t

-- The bytes of a message that a call of `send` on `fd` took, behind those sent before.
unfoldable sent_by : ℤ → (c : Call) → Answer c → List ℕ → List ℕ
sent_by fd (send to message) (ok n) before =
    if eqb_ℤ to fd then before ++ take n message else before
sent_by fd _ _ before = before

-- The bytes that the calls of `send` on `fd` took, in order.
unfoldable pub sent : ℤ → List Event → List ℕ
unfolding sent_by
sent fd [] = []
sent fd (did c a ∷ t) = sent_by fd c a (sent fd t)

pub sent-send :
    (fd : ℤ) (message : List ℕ) (n : ℕ) (t : List Event)
    → sent fd (did (send fd message) (ok n) ∷ t) ≡ sent fd t ++ take n message
unfolding sent
sent-send fd message n t = rw (eqb_ℤ-refl fd) refl

-- recv() and send() handle at most the bytes that they are given.
pub record Bounded (os : Platform) : Type 0 where
  pub recv_bounded :
      (h : List Event) (fd : ℤ) (n : ℕ) (message : List ℕ)
      → os.answer h (recv fd n) ≡ ok message
      → length message ≤ n
  pub send_bounded :
      (h : List Event) (fd : ℤ) (message : List ℕ) (n : ℕ)
      → os.answer h (send fd message) ≡ ok n
      → n ≤ length message

-- What a call with `before` bytes received at its start does: it succeeds with `bytes` more, or ends
-- otherwise, but it ends.
unfoldable pub Takes : ℕ → ℕ → Res MsgResult × Machine Server → Type 0
Takes bytes before (ret MsgResult.success, w) = received w.trace ≡ bytes + before
Takes bytes before (ret r, w) = Unit
Takes bytes before (err, w) = ⊥
Takes bytes before (fault, w) = ⊥
Takes bytes before (more, w) = ⊥

-- What a call that starts when the bytes `before` are sent on `fd` does: it succeeds with exactly `bytes`
-- sent on it behind them, or ends otherwise, but it ends.
unfoldable pub Gives : ℤ → List ℕ → List ℕ → Res MsgResult × Machine Server → Type 0
Gives fd bytes before (ret MsgResult.success, w) = sent fd w.trace ≡ before ++ bytes
Gives fd bytes before (ret r, w) = Unit
Gives fd bytes before (err, w) = ⊥
Gives fd bytes before (fault, w) = ⊥
Gives fd bytes before (more, w) = ⊥

unfoldable pub Returns : Res MsgResult × Machine Server → Type 0
Returns (ret r, w) = Unit
Returns (err, w) = ⊥
Returns (fault, w) = ⊥
Returns (more, w) = ⊥

pub on_success-Takes :
    (m k : M Server MsgResult) (w : Machine Server) (bytes before : ℕ)
    → Returns (m w)
    → Takes bytes before (k (m w).1)
    → Takes bytes before (on_success m k w)
unfolding Takes Returns
on_success-Takes m k w bytes before = go (m w)
  where
    go :
        (p : Res MsgResult × Machine Server)
        → Returns p
        → Takes bytes before (k p.1)
        → Takes bytes before (on_success (λ _. p) k w)
    go (ret MsgResult.success, v) r h = h
    go (ret MsgResult.error, v) r h = tt
    go (ret MsgResult.closed, v) r h = tt
    go (ret MsgResult.termination, v) r h = tt
    go (err, v) r h = r
    go (fault, v) r h = r
    go (more, v) r h = r

pub stop-Takes :
    (r : MsgResult) (w : Machine Server) (bytes before : ℕ)
    → r ≢ MsgResult.success
    → Takes bytes before (ret r, w)
unfolding Takes
stop-Takes MsgResult.success w bytes before h = absurd (h refl)
stop-Takes _ w bytes before h = tt

pub Takes-shift :
    (total n rest before before' : ℕ) (p : Res MsgResult × Machine Server)
    → total ≡ rest + n
    → before' ≡ n + before
    → Takes rest before' p
    → Takes total before p
unfolding Takes
Takes-shift total n rest before before' (ret MsgResult.success, v) d e h = omega arith
Takes-shift total n rest before before' (ret _, v) d e h = tt
Takes-shift total n rest before before' (err, v) d e h = h
Takes-shift total n rest before before' (fault, v) d e h = h
Takes-shift total n rest before before' (more, v) d e h = h

pub at_end :
    (w : Machine Server) (n : ℕ) → n ≡ 0 → Takes n (received w.trace) (ret MsgResult.success, w)
unfolding Takes
at_end w n z = omega arith

pub Gives-shift :
    (fd : ℤ) (total part rest before before' : List ℕ) (p : Res MsgResult × Machine Server)
    → total ≡ part ++ rest
    → before' ≡ before ++ part
    → Gives fd rest before' p
    → Gives fd total before p
unfolding Gives
Gives-shift fd total part rest before before' (ret MsgResult.success, v) d e h =
    h ∙ ap (λ xs. xs ++ rest) e ∙ append_assoc before part rest ∙ ap (λ xs. before ++ xs) (sym d)
Gives-shift fd total part rest before before' (ret _, v) d e h = tt
Gives-shift fd total part rest before before' (err, v) d e h = h
Gives-shift fd total part rest before before' (fault, v) d e h = h
Gives-shift fd total part rest before before' (more, v) d e h = h

pub Takes-Returns :
    (bytes before : ℕ) (p : Res MsgResult × Machine Server) → Takes bytes before p → Returns p
unfolding Takes Returns
Takes-Returns bytes before (ret r, w) h = tt
Takes-Returns bytes before (err, w) h = h
Takes-Returns bytes before (fault, w) h = h
Takes-Returns bytes before (more, w) h = h

pub Gives-Returns :
    (fd : ℤ) (bytes before : List ℕ) (p : Res MsgResult × Machine Server)
    → Gives fd bytes before p
    → Returns p
unfolding Gives Returns
Gives-Returns fd bytes before (ret r, w) h = tt
Gives-Returns fd bytes before (err, w) h = h
Gives-Returns fd bytes before (fault, w) h = h
Gives-Returns fd bytes before (more, w) h = h

pub on_success-Returns :
    (m k : M Server MsgResult) (w : Machine Server)
    → Returns (m w)
    → Returns (k (m w).1)
    → Returns (on_success m k w)
unfolding Returns
on_success-Returns m k w = go (m w)
  where
    go :
        (p : Res MsgResult × Machine Server)
        → Returns p
        → Returns (k p.1)
        → Returns (on_success (λ _. p) k w)
    go (ret MsgResult.success, v) r h = h
    go (ret MsgResult.error, v) r h = tt
    go (ret MsgResult.closed, v) r h = tt
    go (ret MsgResult.termination, v) r h = tt
    go (err, v) r h = r
    go (fault, v) r h = r
    go (more, v) r h = r

module _ (os : Platform) where
  pub check_fd_msg-quiet :
      (fd : ℤ) (w : Machine Server) → received (check_fd_msg os fd w).1.trace ≡ received w.trace
  unfolding check_fd_msg check_fd received
  check_fd_msg-quiet fd w = ground arith

  pub check_fd_msg-Returns : (fd : ℤ) (w : Machine Server) → Returns (check_fd_msg os fd w)
  unfolding check_fd_msg check_fd Returns
  check_fd_msg-Returns fd w = ground arith
