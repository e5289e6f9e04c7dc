-- ===== src/Process/Interleaving/Receiving.antt =====
-- What a child does to receive a message concerns nothing that the processes share.
use scalable_server.Process.State.{Child}
use scalable_server.Process.Interleaving.Calls.{resume-Walks, stays, Walks, action, actions}
use scalable_server.Process.Child.{pointer_size, c_get_message_length, recv_once, recv_loop}
use scalable_server.Prelude.{
  none, some, Option, refl, ◌^◌, ◌%◌, ◌+◌, inl, inr, ◌==◌, not, ◌&&◌, ltb, Bool-cases, ◌≡◌, ℤ, ◌∷◌,
  suc, zero, length, ℕ, List,
}
use scalable_server.Os.{malloc, overlay, did, Event, fail, recv, Ret, ok, Machine, Platform}
use scalable_server.Process.Interleaving.System.{ChildPc}

module _ (os : Platform) where
  pub c_get_message_length-Walks :
      (pc : ChildPc) (w : Machine Child) → Walks pc pc (actions w.trace) (c_get_message_length os w)
  unfolding c_get_message_length actions action
  c_get_message_length-Walks pc w = go _ refl
    where
      go :
          (r : Ret (List ℕ))
          → os.answer w.trace (recv w.st.client_fd_local 4) ≡ r
          → Walks pc pc (actions w.trace) (c_get_message_length os w)
      go (fail x) e = rw (e, c_get_message_length) (pc, stays)
      go (ok header) e = allocated _ refl
        where
          before : List Event
          before = did (recv w.st.client_fd_local 4) (ok header) ∷ w.trace

          size : ℕ
          size = os.ntohl (os.word32 (overlay header (os.scratch before))) % 2 ^ 32

          allocated :
              (o : Option ℕ)
              → os.answer before (malloc (size + 1)) ≡ o
              → Walks pc pc (actions w.trace) (c_get_message_length os w)
          allocated (some buffer) d = rw (e, d, c_get_message_length) stays
          allocated none d = rw (e, d, c_get_message_length) (pc, stays)

  recv_once-Walks :
      (pc : ChildPc) (fd : ℤ) (buffer size so_far : ℕ) (w : Machine Child)
      → Walks pc pc (actions w.trace) (recv_once os fd buffer size so_far w)
  unfolding recv_once actions action
  recv_once-Walks pc fd buffer size so_far w = go _ refl
    where
      go :
          (r : Ret (List ℕ))
          → os.answer w.trace (recv fd pointer_size) ≡ r
          → Walks pc pc (actions w.trace) (recv_once os fd buffer size so_far w)
      go (fail x) e = rw (e, recv_once) (pc, stays)
      go (ok message) e = elim (Bool-cases (ltb (size + 1) (so_far + length message))) [
        | inl over ↦ rw (e, recv_once, over) (pc, stays)
        | inr fits ↦ rw (e, recv_once, fits) stays
      ]

  pub recv_loop-Walks :
      (rounds : ℕ) (pc : ChildPc) (fd : ℤ) (buffer size bytes so_far : ℕ) (w : Machine Child)
      → Walks pc pc (actions w.trace) (recv_loop os rounds fd buffer size bytes so_far w)
  unfolding recv_loop
  recv_loop-Walks zero pc fd buffer size bytes so_far w = (pc, stays)
  recv_loop-Walks (suc rounds) pc fd buffer size bytes so_far w =
      elim (Bool-cases (ltb so_far size && not (bytes == 0))) [
        | inr stop ↦ rw stop stays
        | inl go ↦ rw go (
            resume-Walks pc pc pc w (recv_once os fd buffer size so_far w)
              (λ n. recv_loop os rounds fd buffer size n ((so_far + n) % 2 ^ 32))
              (recv_once-Walks pc fd buffer size so_far w)
              (λ n v. recv_loop-Walks rounds pc fd buffer size n ((so_far + n) % 2 ^ 32) v))
      ]
