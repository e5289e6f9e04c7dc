-- ===== src/Controller/Accepting.antt =====
-- The clients that the controller lets in (client-controller/src/handle.c).
use scalable_server.Controller.Handle.{States, handle_accept}
use scalable_server.Prelude.{
  ◌∙◌, length-set, take-set, suc, set, ◌+◌, take, refl, ◌⊎◌, inr, [], arith, ◌∷◌, le→ltb, pos, inl,
  ◌++◌, lt→ltb, dec_lt, ◌<◌, ℕ, ◌≤◌, ℤ, ◌≡◌, length,
}
use scalable_server.Os.{
  fault, ok, ret, SockaddrIn, fail, Ret, Res, Machine, accept, Answer, Platform,
}
use scalable_server.Controller.State.{connected, Controller, max_conns, StateObject}

-- The array has its length, and no more connections are counted than it holds.
pub record IsValid (s : StateObject) : Type 0 where
  pub fds_length : length s.accepted_fds ≡ max_conns
  pub conns_bound : s.num_conns ≤ max_conns

module _ (os : Platform) where
  -- What `handle_accept` does with each answer to accept(): a client joins at the end of those that are connected, if there is a
  -- slot; the one too many is written outside the array; a failure changes nothing.
  abbrev pub Accepted :
      Answer (accept (ℤ.pos 0)) → Machine Controller → Res States × Machine Controller → Type 0
  Accepted (fail e) w r = (r.0 ≡ ret States.error) × (r.1.st ≡ w.st)
  Accepted (ok (fd, addr)) w r =
      ((w.st.num_conns < max_conns)
        × (r.0 ≡ ret States.success)
        × (connected r.1.st.so ≡ connected w.st.so ++ pos fd ∷ [])
        × IsValid r.1.st.so)
      ⊎ ((w.st.num_conns ≡ max_conns) × (r.0 ≡ fault) × (r.1.st ≡ w.st))

  -- In a valid state `handle_accept` does the following with each answer of accept(). A failure gives ERROR and changes
  -- nothing; a client joins the connected ones at the end, with the result SUCCESS, and the state stays valid; but the client after
  -- the 500th is written outside the array, which is undefined behaviour.
  pub handle_accept-Accepted :
      (w : Machine Controller)
      → IsValid w.st.so
      → Accepted (os.answer w.trace (accept w.st.listen_fd)) w (handle_accept os w)
  unfolding handle_accept
  handle_accept-Accepted w valid = go (os.answer w.trace (accept w.st.listen_fd)) refl
    where
      connected-add :
          (fd : ℕ)
          → w.st.num_conns < max_conns
          → take (w.st.num_conns + 1) (set w.st.accepted_fds w.st.num_conns (pos fd))
            ≡ connected w.st.so ++ pos fd ∷ []
      connected-add fd room =
          let next : w.st.num_conns + 1 ≡ suc w.st.num_conns = omega arith in
          rw next
            (take-set w.st.num_conns w.st.accepted_fds (pos fd) (omega (arith, valid.fds_length)))

      go :
          (a : Ret (ℕ × SockaddrIn))
          → os.answer w.trace (accept w.st.listen_fd) ≡ a
          → Accepted a w (handle_accept os w)
      go (fail e) same = rw same (refl, refl)
      go (ok (fd, addr)) same = elim (dec_lt w.st.num_conns max_conns) [
        | yes room ↦
            rw (same, lt→ltb w.st.num_conns max_conns room)
              (inl (
                room,
                refl,
                connected-add fd room,
                record {
                  fds_length =
                      length-set w.st.accepted_fds w.st.num_conns (pos fd) ∙ valid.fds_length;
                  conns_bound = omega (arith, room);
                },
              ))
        | no full ↦
            rw (same, le→ltb w.st.num_conns max_conns (omega arith))
              (inr (omega (arith, valid.conns_bound), refl, refl))
      ]
