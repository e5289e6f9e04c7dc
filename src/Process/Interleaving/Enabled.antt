-- ===== src/Process/Interleaving/Enabled.antt =====
-- Which step a process can take next, and what it waits for if there is none.

use scalable_server.Prelude.{refl, suc, zero, arith, dec_lt, inr, inl, [], ◌⊎◌, ◌∷◌, ◌≡◌, ℕ, List}
use scalable_server.Process.Interleaving.System.{
  at_log, enable, enables, got, hang_up, idle, logging, polling, post_pipe, ready, replying,
  reports, scan, send, disable, reply, disables, post_log, post_read, posts, wait_log, write,
  writing, sends, wait_pipe, wait_write, waits, reporting, read_message, finish, reading, skip,
  post_write, received, receive, scanning, read_pipe, wait_read, accept, ChildMove, ParentMove,
  ChildPc, Slot, ParentPc, Shared,
}

-- A step of a child from `pc`.
pub record ChildStep (sh : Shared) (pc : ChildPc) : Type 0 where
  pub shared_after : Shared
  pub pc_after : ChildPc
  pub move : ChildMove sh pc shared_after pc_after

abbrev pub child_takes :
    {sh sh' : Shared} {pc pc' : ChildPc} → ChildMove sh pc sh' pc' → ChildStep sh pc
child_takes {sh' = sh'} {pc' = pc'} mv = record { shared_after = sh'; pc_after = pc'; move = mv }

-- A child can take no step: a semaphore is 0, or the socket is empty.
abbrev pub ChildWaits : Shared → ChildPc → Type 0
ChildWaits sh idle = sh.domain_read ≡ 0
ChildWaits sh got = sh.domain ≡ []
ChildWaits sh (reporting n) = sh.pipe_write ≡ 0
ChildWaits sh (at_log n) = sh.log ≡ 0
ChildWaits sh pc = ⊥

unfoldable pub positive : (n : ℕ) → ((v : ℕ) × (n ≡ suc v)) ⊎ (n ≡ 0)
positive zero = inr refl
positive (suc v) = inl (v, refl)

unfoldable pub filled : (xs : List ℕ) → ((n : ℕ) × (rest : List ℕ) × (xs ≡ n ∷ rest)) ⊎ (xs ≡ [])
filled [] = inr refl
filled (n ∷ rest) = inl (n, rest, refl)

unfoldable pub child_step : (sh : Shared) (pc : ChildPc) → ChildStep sh pc ⊎ ChildWaits sh pc
child_step sh idle = elim (positive sh.domain_read) [
  | inl (v, e) ↦ inl (child_takes (wait_read e))
  | inr e ↦ inr e
]
child_step sh got = elim (filled sh.domain) [
  | inl (n, rest, e) ↦ inl (child_takes (receive e))
  | inr e ↦ inr e
]
child_step sh (received n) = inl (child_takes post_write)
child_step sh (reading n) = inl (child_takes read_message)
child_step sh (reporting n) = elim (positive sh.pipe_write) [
  | inl (v, e) ↦ inl (child_takes (wait_pipe e))
  | inr e ↦ inr e
]
child_step sh (writing n) = inl (child_takes write)
child_step sh (at_log n) = elim (positive sh.log) [
  | inl (v, e) ↦ inl (child_takes (wait_log e))
  | inr e ↦ inr e
]
child_step sh (logging n) = inl (child_takes post_log)
child_step sh (replying n) = inl (child_takes reply)

-- The moves of the parent that no client brings about.
abbrev pub IsOwn :
    {m : ℕ} {sh sh' : Shared} {slots slots' : ℕ → Slot} {pc pc' : ParentPc}
    → ParentMove m sh slots pc sh' slots' pc'
    → Type 0
IsOwn (accept lt e first nonzero new) = ⊥
IsOwn (scan e) = ⊥
IsOwn (ready lt e) = ⊥
IsOwn (hang_up lt e) = ⊥
IsOwn mv = Unit {0}

-- A step of the parent from `pc` that no client brings about.
pub record ParentStep (m : ℕ) (sh : Shared) (slots : ℕ → Slot) (pc : ParentPc) : Type 0 where
  pub shared_after : Shared
  pub slots_after : ℕ → Slot
  pub pc_after : ParentPc
  pub move : ParentMove m sh slots pc shared_after slots_after pc_after
  pub own : IsOwn move

abbrev pub parent_takes :
    {m : ℕ} {sh sh' : Shared} {slots slots' : ℕ → Slot} {pc pc' : ParentPc}
    (mv : ParentMove m sh slots pc sh' slots' pc')
    → IsOwn mv
    → ParentStep m sh slots pc
parent_takes {sh' = sh'} {slots' = slots'} {pc' = pc'} mv own = record {
  shared_after = sh';
  slots_after = slots';
  pc_after = pc';
  move = mv;
  own = own;
}

-- The parent waits for events, or for domain_write.
abbrev pub ParentWaits : Shared → ParentPc → Type 0
ParentWaits sh polling = sh.pipe ≡ []
ParentWaits sh (waits p n) = sh.domain_write ≡ 0
ParentWaits sh pc = ⊥

unfoldable pub parent_step :
    (m : ℕ) (sh : Shared) (slots : ℕ → Slot) (pc : ParentPc)
    → ParentStep m sh slots pc ⊎ ParentWaits sh pc
parent_step m sh slots polling = elim (filled sh.pipe) [
  | inl (n, rest, e) ↦ inl (parent_takes (read_pipe e) tt)
  | inr e ↦ inr e
]
parent_step m sh slots (scanning p) = elim (dec_lt p m) [
  | yes lt ↦ inl (parent_takes (skip lt) tt)
  | no ge ↦ inl (parent_takes (finish (omega arith)) tt)
]
parent_step m sh slots (waits p n) = elim (positive sh.domain_write) [
  | inl (v, e) ↦ inl (parent_takes (wait_write e) tt)
  | inr e ↦ inr e
]
parent_step m sh slots (sends p n) = inl (parent_takes send tt)
parent_step m sh slots (posts p n) = inl (parent_takes post_read tt)
parent_step m sh slots (disables p n) = inl (parent_takes disable tt)
parent_step m sh slots (reports n) = inl (parent_takes post_pipe tt)
parent_step m sh slots (enables n) = inl (parent_takes enable tt)
