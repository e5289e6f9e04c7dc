-- ===== src/Process/Interleaving/Invariant.antt =====
-- `Inv` holds in every state that a run reaches.
use scalable_server.Process.Interleaving.ChildMoves.{ChildMove-Inv}
use scalable_server.Process.Interleaving.ParentMoves.{ParentMove-Inv}
use scalable_server.Process.Interleaving.System.{
  Slot, free, idle, by_child, start, ChildPc, later, init, by_parent, Reach, Step, System,
  is_client,
}
use scalable_server.Prelude.{refl, arith, sum-none, sum, ◌≡◌, ℕ}
use scalable_server.Process.Interleaving.Counts.{
  is_off_client, holds, is_off, holding, is_logging, is_writing, is_got, is_passing, Inv,
  occurrences,
}

init-Inv : (k m : ℕ) → Inv k m init
unfolding occurrences is_client
init-Inv k m = record {
  domain_token = omega (arith, quiet is_passing refl);
  messages = omega (arith, quiet is_got refl);
  pipe_token = omega (arith, quiet is_writing refl);
  log_token = omega (arith, quiet is_logging refl);
  on_the_way = omega (arith, quiet holding refl, closed is_off refl);
  clients_on_the_way = λ d. omega (arith, quiet (holds d) refl, closed (is_off_client d) refl);
  one_slot = λ d. omega (arith, closed (is_client d) refl);
  at_slot = tt;
}
  where
    quiet : (weight : ChildPc → ℕ) → weight idle ≡ 0 → sum weight k (λ i. idle) ≡ 0
    quiet weight e = sum-none weight k (λ i. idle) (λ i lt. e)

    closed : (weight : Slot → ℕ) → weight free ≡ 0 → sum weight m (λ p. free) ≡ 0
    closed weight e = sum-none weight m (λ p. free) (λ p lt. e)

pub Step-Inv : {k m : ℕ} {s t : System} → Step k m s t → Inv k m s → Inv k m t
Step-Inv (by_parent mv) inv = ParentMove-Inv inv mv
Step-Inv (by_child i lt mv) inv = ChildMove-Inv inv i lt mv

pub Reach-Inv : {k m : ℕ} {s : System} → Reach k m s → Inv k m s
Reach-Inv {k} {m} start = init-Inv k m
Reach-Inv (later r st) = Step-Inv st (Reach-Inv r)
