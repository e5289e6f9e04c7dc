-- ===== src/Process/Interleaving/Work.antt =====
-- How many steps the server has yet to take: it settles unless clients go on.
use scalable_server.Process.Interleaving.ChildMoves.{premise}
use scalable_server.Process.Interleaving.ParentMoves.{parent_premise}
use scalable_server.Process.Interleaving.Invariant.{Reach-Inv}
use scalable_server.Process.Interleaving.Enabled.{IsOwn}
use scalable_server.Process.Interleaving.Counts.{AtSlot, Inv}
use scalable_server.Process.Interleaving.Progress.{
  no_deadlock, own_by_child, own_by_parent, own_step, Quiet, OwnStep,
}
use scalable_server.Prelude.{
  suc, length-append, zero, inl, sum-set_at, inr, arith, sum, ◌<◌, ◌-◌, length, ◌≡◌, ◌≤◌, ◌*◌, ◌+◌,
  ℕ,
}
use scalable_server.Process.Interleaving.System.{
  disable, send, write, polling, finish, enables, skip, replying, hang_up, reports, logging, at_log,
  ready, disables, posts, scan, got, idle, sends, accept, waits, writing, later, reporting, reading,
  Reach, ParentMove, scanning, System, Slot, received, ChildMove, ParentPc, Shared, ChildPc,
}

-- The steps that a child has before it waits for a client again; its report, with those of the parent
-- about it, counts when it is written.
abbrev pub child_work : ChildPc → ℕ
child_work idle = 0
child_work got = 1
child_work (received n) = 10
child_work (reading n) = 9
child_work (reporting n) = 8
child_work (writing n) = 7
child_work (at_log n) = 3
child_work (logging n) = 2
child_work (replying n) = 1

-- The same of the parent, of `m` slots.
abbrev pub parent_work : ℕ → ParentPc → ℕ
parent_work m polling = 0
parent_work m (scanning p) = (m - p) + 1
parent_work m (waits p n) = (m - p) + 16
parent_work m (sends p n) = (m - p) + 15
parent_work m (posts p n) = (m - p) + 4
parent_work m (disables p n) = (m - p) + 1
parent_work m (reports n) = 2
parent_work m (enables n) = 1

-- A value of domain_read, a message and a report count for the steps that they allow.
abbrev pub work : ℕ → ℕ → System → ℕ
work k m s =
    2 * s.domain_read
    + 10 * length s.domain
    + 3 * length s.pipe
    + sum child_work k s.children
    + parent_work m s.parent

ChildMove-work :
    {sh sh' : Shared} {pc pc' : ChildPc}
    → ChildMove sh pc sh' pc'
    → (a b : ℕ) → b + child_work pc ≡ a + child_work pc'
    → 2 * sh'.domain_read + 10 * length sh'.domain + 3 * length sh'.pipe + b
      < 2 * sh.domain_read + 10 * length sh.domain + 3 * length sh.pipe + a
ChildMove-work write a b c = grind (arith, length-append)
ChildMove-work mv a b c = ground (arith, premise mv)

ParentMove-work :
    {m : ℕ} {sh sh' : Shared} {slots slots' : ℕ → Slot} {pc pc' : ParentPc}
    (mv : ParentMove m sh slots pc sh' slots' pc')
    → IsOwn mv
    → AtSlot m slots pc
    → 2 * sh'.domain_read + 10 * length sh'.domain + 3 * length sh'.pipe + parent_work m pc'
      < 2 * sh.domain_read + 10 * length sh.domain + 3 * length sh.pipe + parent_work m pc
ParentMove-work (accept lt e first nonzero new) own h = absurd own
ParentMove-work (scan e) own h = absurd own
ParentMove-work (ready lt e) own h = absurd own
ParentMove-work (hang_up lt e) own h = absurd own
ParentMove-work (skip lt) own h = ground arith
ParentMove-work (finish le) own h = ground arith
ParentMove-work send own h = grind (arith, length-append)
ParentMove-work disable own (lt, e) = ground arith
ParentMove-work mv own h = ground (arith, parent_premise mv)

pub OwnStep-work : {k m : ℕ} {s t : System} → Inv k m s → OwnStep k m s t → work k m t < work k m s
OwnStep-work {m = m} {s = s} inv (own_by_parent mv own) =
    omega (arith, ParentMove-work mv own inv.at_slot)
OwnStep-work {k} {s = s} inv (own_by_child {pc = pc} i lt mv) =
    omega (arith, ChildMove-work mv _ _ (sum-set_at child_work k i pc s.children lt))

-- A run of own steps, with their number.
pub data OwnRun (k m : ℕ) (s : System) : ℕ → System → Type 0 where
  here : OwnRun k m s 0 s
  then_step : {n : ℕ} {t u : System} → OwnRun k m s n t → OwnStep k m t u → OwnRun k m s (suc n) u

OwnRun-Reach :
    {k m : ℕ} {s : System} {n : ℕ} {t : System} → Reach k m s → OwnRun k m s n t → Reach k m t
OwnRun-Reach r here = r
OwnRun-Reach r (then_step run st) = later (OwnRun-Reach r run) (own_step st)

pub OwnRun-bounded :
    {k m : ℕ} {s : System} {n : ℕ} {t : System}
    → Reach k m s
    → OwnRun k m s n t
    → n + work k m t ≤ work k m s
OwnRun-bounded r here = omega arith
OwnRun-bounded {k} {m} r (then_step run st) =
    omega (arith, OwnRun-bounded r run, OwnStep-work (Reach-Inv (OwnRun-Reach r run)) st)

-- Own steps go on until the server is quiet; `fuel` bounds the work left.
settle :
    {k m n : ℕ} {s t : System} (fuel : ℕ)
    → Reach k m s
    → 0 < k
    → m < k + 3
    → OwnRun k m s n t
    → work k m t ≤ fuel
    → (u : System) × ((l : ℕ) × OwnRun k m s l u) × Quiet k m u
settle {t = t} zero r some_child few run le =
    elim (no_deadlock (OwnRun-Reach r run) some_child few) [
      | inr quiet ↦ (t, (_, run), quiet)
      | inl (u, st) ↦ absurd (omega (arith, OwnStep-work (Reach-Inv (OwnRun-Reach r run)) st))
    ]
settle {t = t} (suc fuel) r some_child few run le =
    elim (no_deadlock (OwnRun-Reach r run) some_child few) [
      | inr quiet ↦ (t, (_, run), quiet)
      | inl (u, st) ↦
          settle fuel r some_child few (then_step run st)
            (omega (arith, OwnStep-work (Reach-Inv (OwnRun-Reach r run)) st))
    ]

-- In every state that a run of `k` children and `m` slots reaches, with at least one child and at most two
-- slots more than children: a run of steps that no client brings about (a child that reads a message is
-- taken to get it, or the end of the stream) is at most as long as the work at its start, and goes on by such steps to a quiet
-- server.
pub OwnRun-settles :
    {k m : ℕ} {s : System} {n : ℕ} {t : System}
    → Reach k m s
    → 0 < k
    → m < k + 3
    → OwnRun k m s n t
    → (n ≤ work k m s) × ((u : System) × ((l : ℕ) × OwnRun k m t l u) × Quiet k m u)
OwnRun-settles {k} {m} {t = t} r some_child few run = (
  omega (arith, OwnRun-bounded r run),
  settle (work k m t) (OwnRun-Reach r run) some_child few here (omega arith),
)
