-- ===== src/Core/Lifecycle.antt =====
-- The loop of `run_core` against the documented life of a server: initialize, run, close, exit.
use scalable_server.Prelude.{inr, inl, refl, ℕ, suc, Bool, true, false, ◌≡◌, ◌⊎◌}
use scalable_server.Os.{M, Machine, ret, pure, >>=-congr, ◌>>=◌}
use scalable_server.Core.Api.{ServerStates, CoreObject, ApiFunctions}
use scalable_server.Core.Run.{core_loop}

-- The states that each of the three functions can return, which is what the loop of the core relies on. What
-- api_functions.h says of success and failure is not part of it.
pub record ReturnsStates {S : Type 0} (api : ApiFunctions S) : Type 0 where
  pub initialize_states :
      (w : Machine (CoreObject S)) (s : ServerStates)
      → (api.initialize w).0 ≡ ret s
      → (s ≡ ServerStates.run_server) ⊎ (s ≡ ServerStates.error)
  pub run_states :
      (w : Machine (CoreObject S)) (s : ServerStates)
      → (api.run w).0 ≡ ret s
      → (s ≡ ServerStates.close_server) ⊎ (s ≡ ServerStates.error)
  pub close_states :
      (w : Machine (CoreObject S)) (s : ServerStates)
      → (api.close w).0 ≡ ret s
      → s ≡ ServerStates.exit

module _ {S : Type 0} (api : ApiFunctions S) where
  -- Close the server, and exit with `exit_status`.
  pub wind_down : Bool → M (CoreObject S) Bool
  wind_down exit_status = api.close >>= λ _. pure exit_status

  -- The documented life: each function runs at most once, and `close` runs whatever failed before.
  pub life : M (CoreObject S) Bool
  life = do
    initialized ← api.initialize
    elim initialized [
      | ServerStates.run_server ↦ do
        finished ← api.run
        elim finished [ ServerStates.close_server ↦ wind_down true | _ ↦ wind_down false ]
      | _ ↦ wind_down false
    ]

  exits :
      ReturnsStates api
      → (n : ℕ) (b : Bool) (w : Machine (CoreObject S))
      → (api.close >>= λ s. core_loop api (suc n) s b) w ≡ wind_down b w
  unfolding core_loop wind_down
  exits c n b w = >>=-congr api.close _ _ w (λ s e. rw (c.close_states w s e) refl)

  -- For a library each of whose functions returns only the states that are documented for it, with at least four rounds the loop of the core is that
  -- life: the same exit status, the same state, the same calls in the same order.
  pub core_loop-eq-life :
      ReturnsStates api
      → (n : ℕ) (w : Machine (CoreObject S))
      → core_loop api (suc (suc (suc (suc n)))) ServerStates.initialize_server true w ≡ life w
  unfolding core_loop life
  core_loop-eq-life c n w = >>=-congr api.initialize _ _ w λ s e. elim (c.initialize_states w s e) [
    | inl started ↦ rw started (
        >>=-congr api.run _ _ (api.initialize w).1 λ t d.
          elim (c.run_states (api.initialize w).1 t d) [
            | inl finished ↦ rw finished (exits c n true _)
            | inr failed ↦ rw failed (exits c n false _)
          ])
    | inr failed ↦ rw failed (exits c (suc n) false _)
  ]
