-- ===== src/Process/Interleaving/Schedule.antt =====
-- Runs that are computed from what the clients do and from which process goes next.
use scalable_server.Process.Interleaving.Enabled.{filled, positive, parent_step, child_step}
use scalable_server.Prelude.{
  refl, suc, set_at, sum, inr, ℕ_discrete, [], inl, none, ◌≡◌, some, ◌∷◌, dec_lt, List, Option, ℕ,
}
use scalable_server.Process.Interleaving.System.{
  reenabled, accept, polling, hang_up, ready, waits, scan, scanning, is_client, is_free, by_parent,
  later, ParentMove, by_child, start, Step, on, free, Reach, init, ParentPc, Shared, System, Slot,
}

-- A client with the descriptor `n` connects to the slot `p`; `poll` reports clients; the one whose slot
-- the parent is at has sent something, or has hung up.
pub data Occurrence : Type 0 where
  connects : ℕ → ℕ → Occurrence
  polled : Occurrence
  has_sent : Occurrence
  hung_up : Occurrence

-- A step of the parent from `pc`.
record Change (m : ℕ) (sh : Shared) (slots : ℕ → Slot) (pc : ParentPc) : Type 0 where
  slots_after : ℕ → Slot
  pc_after : ParentPc
  move : ParentMove m sh slots pc sh slots_after pc_after

if_holds : {P : Type 0} → Dec P → Option P
if_holds (yes p) = some p
if_holds (no _) = none

unused : (slot : Slot) → Option (slot ≡ free)
unused free = some refl
unused slot = none

client : (slot : Slot) → Option ((n : ℕ) × (slot ≡ on n))
client (on n) = some (n, refl)
client slot = none

nothing_in : (xs : List ℕ) → Option (xs ≡ [])
nothing_in [] = some refl
nothing_in (x ∷ xs) = none

infixl 10 ◌>>=◌
abbrev ◌>>=◌ {ℓ ℓ'} : {A : Type ℓ} {B : Type ℓ'} → Option A → (A → Option B) → Option B
none >>= f = none
some a >>= f = f a

occur :
    Occurrence
    → (m : ℕ) (sh : Shared) (slots : ℕ → Slot) (pc : ParentPc) → Option (Change m sh slots pc)
occur (connects p n) m sh slots polling = do
  lt ← if_holds (dec_lt p m)
  e ← unused (slots p)
  first ← if_holds (ℕ_discrete (sum is_free p slots) 0)
  nonzero ← if_holds (dec_lt 0 n)
  fresh ← if_holds (ℕ_discrete (sum (is_client n) m slots) 0)
  some (record {
    slots_after = set_at p (on n) slots;
    pc_after = polling;
    move = accept lt e first nonzero fresh;
  })
occur polled m sh slots polling = do
  e ← nothing_in sh.pipe
  some (record { slots_after = slots; pc_after = scanning 0; move = scan e })
occur has_sent m sh slots (scanning p) = do
  lt ← if_holds (dec_lt p m)
  found ← client (slots p)
  some (record { slots_after = slots; pc_after = waits p found.0; move = ready lt found.1 })
occur hung_up m sh slots (scanning p) = do
  lt ← if_holds (dec_lt p m)
  found ← client (slots p)
  some (record {
    slots_after = set_at p free slots;
    pc_after = scanning (suc p);
    move = hang_up lt found.1;
  })
occur event m sh slots pc = none

-- Which process goes next; the parent by itself, or with an event.
pub data Choice : Type 0 where
  parent_goes : Choice
  child_goes : ℕ → Choice
  client_does : Occurrence → Choice

pub record Reached (k m : ℕ) : Type 0 where
  pub last : System
  pub reach : Reach k m last

extended : {k m : ℕ} (r : Reached k m) {t : System} → Step k m r.last t → Reached k m
extended r {t} st = record { last = t; reach = later r.reach st }

-- A process that can take no step leaves the state as it is.
after : {k m : ℕ} → Choice → Reached k m → Reached k m
after {k} (child_goes i) r = elim (dec_lt i k) [
  | no _ ↦ r
  | yes lt ↦ elim (child_step r.last.shared (r.last.children i)) [
    | inl st ↦ extended r (by_child i lt st.move)
    | inr _ ↦ r
  ]
]
after {m = m} parent_goes r = elim (parent_step m r.last.shared r.last.slots r.last.parent) [
  | inl st ↦ extended r (by_parent st.move)
  | inr _ ↦ r
]
after {m = m} (client_does x) r = elim (occur x m r.last.shared r.last.slots r.last.parent) [
  | some st ↦ extended r (by_parent st.move)
  | none ↦ r
]

run_from : {k m : ℕ} → List Choice → Reached k m → Reached k m
run_from [] r = r
run_from (c ∷ cs) r = run_from cs (after c r)

-- The run of a schedule from the start.
unfoldable pub run : (k m : ℕ) → List Choice → Reached k m
unfolding run_from after extended occur if_holds unused client nothing_in child_step parent_step
    positive filled sum is_free is_client reenabled dec_lt ℕ_discrete
run k m schedule = run_from schedule (record { last = init; reach = start })
