-- ===== src/OneToOne/Lifecycle.antt =====
-- one-to-one/src/api_functions.c as a library of the core.
use scalable_server.Core.Lifecycle.{ReturnsStates}
use scalable_server.Core.Api.{CoreObject, ServerStates}
use scalable_server.OneToOne.State.{ClientResult, Server}
use Prim.Native.Nat.{suc, ℕ}
use scalable_server.Prelude.{inr, inl, none, some, refl, Option, zero, suc, ◌⊎◌, arith, ◌≡◌, ℕ}
use scalable_server.OneToOne.Setup.{
  setup_state, close_server, run_server, initialize_server, one_to_one_api,
}
use scalable_server.OneToOne.Serve.{handle_client, accept_conn, serve}
use scalable_server.Os.{
  ignore, ◌>>=◌, close, call, >>=-Yields, Yields, Yields-ret, Machine, Platform,
}

module _ (os : Platform) where
  abbrev Ending : ServerStates → Type 0
  Ending s = (s ≡ ServerStates.close_server) ⊎ (s ≡ ServerStates.error)

  serve-Ending :
      (rounds messages : ℕ) (w : Machine Server) → Yields Ending (serve os rounds messages w).0
  unfolding serve
  serve-Ending zero messages w = tt
  serve-Ending (suc rounds) messages w =
      >>=-Yields Ending (call os (close w.st.client_fd) >>= ignore) _ w λ _ v.
        >>=-Yields Ending (accept_conn os w.st.listen_fd) _ v (elim [
          | ClientResult.termination ↦ λ _. inl refl
          | ClientResult.error ↦ λ _. inr refl
          | ClientResult.success ↦ λ u. >>=-Yields Ending (handle_client os messages) _ u (elim [
            | ClientResult.success ↦ λ t. serve-Ending rounds messages t
            | ClientResult.error ↦ λ _. inr refl
            | ClientResult.termination ↦ λ _. inl refl
          ])
        ])

  run-Ending :
      (rounds messages : ℕ) (w : Machine (CoreObject Server)) (so : Option Server)
      → w.st.so ≡ so
      → Yields Ending (run_server os rounds messages w).0
  unfolding run_server
  run-Ending rounds messages w none e = rw (e, run_server) tt
  run-Ending rounds messages w (some s) e = rw (e, run_server) (serve-Ending rounds messages _)

  -- The one-to-one server returns only the states that api_functions.h documents.
  pub one_to_one_api-ReturnsStates :
      (rounds messages : ℕ) → ReturnsStates (one_to_one_api os rounds messages)
  unfolding one_to_one_api initialize_server run_server close_server setup_state
  one_to_one_api-ReturnsStates rounds messages = record {
    initialize_states = λ w s h. ground arith;
    run_states = λ w s h. Yields-ret Ending _ s (run-Ending rounds messages w w.st.so refl) h;
    close_states = λ w s h. ground arith;
  }
