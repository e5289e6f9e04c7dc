-- ===== src/Process/Interleaving/Progress.antt =====
-- The server never comes to a stop with work left: some process can take a step.
use mathlib.Core.Path.{subst}
use scalable_server.Process.Interleaving.Invariant.{Reach-Inv}
use scalable_server.Process.Interleaving.Enabled.{
  child_step, parent_step, ParentWaits, IsOwn, ChildWaits,
}
use scalable_server.Process.Interleaving.Counts.{
  AtSlot, parent_sent, holding, is_passing, is_off, is_got, is_writing, is_logging, Inv,
}
use scalable_server.Process.Interleaving.System.{
  Reach, on, waits, idle, ChildMove, ChildPc, ParentMove, ParentPc, by_child, by_parent, polling,
  Slot, Shared, Step, System,
}
use scalable_server.Prelude.{
  sum-lt, some_or_all, inr, inl, refl, sum-each, ◌⊎◌, ◌∷◌, ◌+◌, weight-le-sum, List, length, arith,
  sum-none, [], set_at, sum, ◌<◌, ◌≡◌, ℕ,
}

-- A step that no client brings about: no connection, no event of a client that `poll` reports. A child that
-- reads a message is taken to get it, or the end of the stream.
pub data OwnStep (k m : ℕ) (s : System) : System → Type 0 where
  own_by_parent :
      {sh : Shared} {slots : ℕ → Slot} {pc : ParentPc}
      (mv : ParentMove m s.shared s.slots s.parent sh slots pc)
      → IsOwn mv
      → OwnStep k m s (record { shared = sh; slots = slots; parent = pc; children = s.children })
  own_by_child :
      {sh : Shared} {pc : ChildPc} (i : ℕ)
      → i < k
      → ChildMove s.shared (s.children i) sh pc
      → OwnStep k m s (record s { shared = sh; children = set_at i pc s.children })

pub own_step : {k m : ℕ} {s t : System} → OwnStep k m s t → Step k m s t
own_step (own_by_parent mv own) = by_parent mv
own_step (own_by_child i lt mv) = by_child i lt mv

-- The server has nothing left to do: the parent is at `poll`, each child waits for a client, nothing
-- is on the socket or in the pipe, and no client is off.
pub record Quiet (k m : ℕ) (s : System) : Type 0 where
  pub at_poll : s.parent ≡ polling
  pub all_idle : (i : ℕ) → i < k → s.children i ≡ idle
  pub no_message : s.domain ≡ []
  pub no_report : s.pipe ≡ []
  pub none_off : sum is_off m s.slots ≡ 0

nothing : (xs : List ℕ) → length xs ≡ 0 → xs ≡ []
nothing [] e = refl
nothing (x ∷ xs) e = absurd (omega arith)

-- What it is for all children to wait.
module _ {k m : ℕ} {s : System} (inv : Inv k m s)
    (all : (i : ℕ) → i < k → ChildWaits s.shared (s.children i)) where
  open inv use {domain_token, messages, pipe_token, log_token, on_the_way}

  no_logging : sum is_logging k s.children ≡ 0
  no_logging = sum-none is_logging k s.children (λ i lt. ground (arith, all i lt))

  no_writing : sum is_writing k s.children ≡ 0
  no_writing = sum-none is_writing k s.children (λ i lt. ground (arith, all i lt))

  -- A child at `recvmsg` would find a message.
  no_got : sum is_got k s.children ≡ 0
  no_got =
      sum-none is_got k s.children
        (λ i lt. ground (arith, all i lt, messages, weight-le-sum is_got k i s.children lt))

  no_passing : sum is_passing k s.children ≡ 0
  no_passing =
      sum-none is_passing k s.children
        (λ i lt. ground (arith, all i lt, no_got, weight-le-sum is_got k i s.children lt))

  -- The parent is at `poll` with nothing to read.
  waiting_at_poll : 0 < k → s.parent ≡ polling → s.pipe ≡ [] → Quiet k m s
  waiting_at_poll some_child at e = record {
    at_poll = at;
    all_idle = idle_child;
    no_message =
        nothing s.domain
          (ground (arith, messages, no_got, all 0 some_child, idle_child 0 some_child));
    no_report = e;
    none_off =
        ground (
          arith,
          on_the_way,
          messages,
          no_got,
          none_held,
          all 0 some_child,
          idle_child 0 some_child,
        );
  }
    where
      idle_child : (i : ℕ) → i < k → s.children i ≡ idle
      idle_child i lt = ground (
        arith,
        all i lt,
        pipe_token,
        no_writing,
        log_token,
        no_logging,
        messages,
        no_got,
        weight-le-sum is_got k i s.children lt,
      )

      none_held : sum holding k s.children ≡ 0
      none_held = sum-none holding k s.children (λ i lt. ground (arith, idle_child i lt))

  -- The parent waits for domain_write: then too many clients would be on their way.
  waiting_to_send :
      {p n : ℕ} → 0 < k → m < k + 3 → s.parent ≡ waits p n → s.domain_write ≡ 0 → Quiet k m s
  waiting_to_send {p} {n} some_child few at e =
      absurd (omega (arith, on_the_way, counts, all_held, room))
    where
      token : s.domain_read ≡ 1
      token = ground (arith, domain_token, no_passing)

      at_pipe : (i : ℕ) → i < k → (holding (s.children i) ≡ 1) × (s.pipe_write ≡ 0)
      at_pipe i lt = ground (
        arith,
        all i lt,
        token,
        log_token,
        no_logging,
        no_got,
        weight-le-sum is_got k i s.children lt,
      )

      all_held : sum holding k s.children ≡ k
      all_held = sum-each holding k s.children (λ i lt. (at_pipe i lt).0)

      counts : (length s.domain ≡ 1) × (length s.pipe ≡ 1) × (parent_sent s.parent ≡ 0)
      counts =
          ground (arith, messages, pipe_token, token, no_got, no_writing, (at_pipe 0 some_child).1)

      slot : (p < m) × (s.slots p ≡ on n)
      slot = subst (AtSlot m s.slots) at inv.at_slot

      room : sum is_off m s.slots < m
      room = sum-lt is_off (λ a. ground arith) m p s.slots slot.0 (ground (arith, slot.1))

  pub no_child_moves :
      0 < k → m < k + 3 → (pc : ParentPc) → s.parent ≡ pc → ParentWaits s.shared pc → Quiet k m s
  no_child_moves some_child few polling at e = waiting_at_poll some_child at e
  no_child_moves some_child few (waits p n) at e = waiting_to_send some_child few at e
  no_child_moves some_child few pc at e = absurd e

-- In every state that a run of `k` children and `m` slots reaches, with at least one child and at most two
-- slots more than children, some process can take a step that no client brings about (a child that reads
-- a message is taken to get it), or the server is quiet.
pub no_deadlock :
    {k m : ℕ} {s : System}
    → Reach k m s
    → 0 < k
    → m < k + 3
    → ((t : System) × OwnStep k m s t) ⊎ Quiet k m s
no_deadlock {k} {m} {s} r some_child few = elim (parent_step m s.shared s.slots s.parent) [
  | inl st ↦ inl (_, own_by_parent st.move st.own)
  | inr waiting ↦ elim (some_or_all (child_step s.shared) k s.children) [
    | inl (i, lt, st) ↦ inl (_, own_by_child i lt st.move)
    | inr all ↦ inr (no_child_moves (Reach-Inv r) all some_child few s.parent refl waiting)
  ]
]
