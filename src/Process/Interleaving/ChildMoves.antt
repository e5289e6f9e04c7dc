-- ===== src/Process/Interleaving/ChildMoves.antt =====
-- A step of a child keeps `Inv`.
use scalable_server.Process.Interleaving.Counts.{
  occurrences-append, holding, is_passing, holds, is_writing, is_got, is_logging, Inv, occurrences,
}
use scalable_server.Process.Interleaving.System.{
  write, wait_log, wait_pipe, receive, wait_read, ChildMove, System, ChildPc, Shared,
}
use scalable_server.Prelude.{
  length-append, arith, ◌∷◌, sum-set_at, suc, length, sum, set_at, ◌≡◌, ◌<◌, ◌+◌, ℕ,
}

-- The premise of a move, for the clauses that take all moves.
abbrev pub Premise : {sh sh' : Shared} {pc pc' : ChildPc} → ChildMove sh pc sh' pc' → Type 0
Premise {sh} (wait_read {v} e) = sh.domain_read ≡ suc v
Premise {sh} (receive {n} {rest} e) = sh.domain ≡ n ∷ rest
Premise {sh} (wait_pipe {n} {v} e) = sh.pipe_write ≡ suc v
Premise {sh} (wait_log {v} e) = sh.log ≡ suc v
Premise mv = Unit {0}

pub premise : {sh sh' : Shared} {pc pc' : ChildPc} (mv : ChildMove sh pc sh' pc') → Premise mv
premise (wait_read e) = e
premise (receive e) = e
premise (wait_pipe e) = e
premise (wait_log e) = e
premise mv = tt

-- `a` is a sum of weights before the move and `b` after it.
module _ {sh : Shared} (x : ℕ) where
  ChildMove-domain_token :
      {sh' : Shared} {pc pc' : ChildPc}
      → ChildMove sh pc sh' pc'
      → (a b : ℕ) → b + is_passing pc ≡ a + is_passing pc'
      → sh.domain_write + sh.domain_read + a + x ≡ 1
      → sh'.domain_write + sh'.domain_read + b + x ≡ 1
  ChildMove-domain_token (wait_read e) a b c h = ground arith
  ChildMove-domain_token mv a b c h = ground (arith, premise mv)

  ChildMove-messages :
      {sh' : Shared} {pc pc' : ChildPc}
      → ChildMove sh pc sh' pc'
      → (a b : ℕ) → b + is_got pc ≡ a + is_got pc'
      → length sh.domain ≡ sh.domain_read + a + x
      → length sh'.domain ≡ sh'.domain_read + b + x
  ChildMove-messages (wait_read e) a b c h = ground arith
  ChildMove-messages mv a b c h = ground (arith, premise mv)

  ChildMove-pipe_token :
      {sh' : Shared} {pc pc' : ChildPc}
      → ChildMove sh pc sh' pc'
      → (a b : ℕ) → b + is_writing pc ≡ a + is_writing pc'
      → sh.pipe_write + a + length sh.pipe + x ≡ 1
      → sh'.pipe_write + b + length sh'.pipe + x ≡ 1
  ChildMove-pipe_token write a b c h = grind (arith, length-append)
  ChildMove-pipe_token mv a b c h = ground (arith, premise mv)

  ChildMove-on_the_way :
      {sh' : Shared} {pc pc' : ChildPc}
      → ChildMove sh pc sh' pc'
      → (a b : ℕ) → b + holding pc ≡ a + holding pc'
      → length sh'.domain + b + length sh'.pipe ≡ length sh.domain + a + length sh.pipe
  ChildMove-on_the_way write a b c = grind (arith, length-append)
  ChildMove-on_the_way mv a b c = ground (arith, premise mv)

  ChildMove-client :
      {sh' : Shared} {pc pc' : ChildPc}
      → ChildMove sh pc sh' pc'
      → (d a b : ℕ) → b + holds d pc ≡ a + holds d pc'
      → occurrences d sh'.domain + b + occurrences d sh'.pipe
        ≡ occurrences d sh.domain + a + occurrences d sh.pipe
  unfolding occurrences
  ChildMove-client write d a b c = grind (arith, occurrences-append)
  ChildMove-client mv d a b c = ground (arith, premise mv)

ChildMove-log_token :
    {sh sh' : Shared} {pc pc' : ChildPc}
    → ChildMove sh pc sh' pc'
    → (a b : ℕ) → b + is_logging pc ≡ a + is_logging pc'
    → sh.log + a ≡ 1
    → sh'.log + b ≡ 1
ChildMove-log_token (wait_read e) a b c h = ground arith
ChildMove-log_token mv a b c h = ground (arith, premise mv)

pub ChildMove-Inv :
    {k m : ℕ} {s : System} {sh : Shared} {pc : ChildPc}
    → Inv k m s
    → (i : ℕ) → i < k
    → ChildMove s.shared (s.children i) sh pc
    → Inv k m (record s { shared = sh; children = set_at i pc s.children })
ChildMove-Inv {k} {m} {s} {sh} {pc} inv i lt mv = record {
  domain_token = ChildMove-domain_token _ mv _ _ (changed is_passing) inv.domain_token;
  messages = ChildMove-messages _ mv _ _ (changed is_got) inv.messages;
  pipe_token = ChildMove-pipe_token _ mv _ _ (changed is_writing) inv.pipe_token;
  log_token = ChildMove-log_token mv _ _ (changed is_logging) inv.log_token;
  on_the_way = omega (arith, inv.on_the_way, ChildMove-on_the_way 0 mv _ _ (changed holding));
  clients_on_the_way =
      λ d. omega (arith, inv.clients_on_the_way d, ChildMove-client 0 mv d _ _ (changed (holds d)));
  one_slot = inv.one_slot;
  at_slot = inv.at_slot;
}
  where
    changed :
        (weight : ChildPc → ℕ)
        → sum weight k (set_at i pc s.children) + weight (s.children i)
          ≡ sum weight k s.children + weight pc
    changed weight = sum-set_at weight k i pc s.children lt
