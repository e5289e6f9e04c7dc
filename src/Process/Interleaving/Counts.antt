-- ===== src/Process/Interleaving/Counts.antt =====
-- What the processes and the slots hold: the semaphores that a process has waited for and not posted,
-- and the clients that are between the parent's sending and a child's report.
use scalable_server.Prelude.{
  ◌≤◌, arith, [], length, sum, ◌≡◌, ◌<◌, ◌==◌, ◌+◌, ◌++◌, ◌∷◌, if◌then◌else◌, List, ℕ,
}
use scalable_server.Process.Interleaving.System.{
  is_client, on, reporting, reading, disables, enables, System, waits, posts, sends, logging,
  writing, reports, off, got, received, ParentPc, Slot, ChildPc,
}

-- How often `d` is in a queue.
unfoldable pub occurrences : ℕ → List ℕ → ℕ
occurrences d [] = 0
occurrences d (n ∷ ns) = (if n == d then 1 else 0) + occurrences d ns

pub occurrences-append :
    (d : ℕ) (xs ys : List ℕ) → occurrences d (xs ++ ys) ≡ occurrences d xs + occurrences d ys
unfolding occurrences
occurrences-append d [] ys = omega arith
occurrences-append d (x ∷ xs) ys = ground (arith, occurrences-append d xs ys)

abbrev pub same : ℕ → ℕ → ℕ
same n d = if n == d then 1 else 0

-- A child between the wait for domain_read and the post of domain_write.
abbrev pub is_passing : ChildPc → ℕ
is_passing got = 1
is_passing (received n) = 1
is_passing pc = 0

abbrev pub is_got : ChildPc → ℕ
is_got got = 1
is_got pc = 0

-- A child that has waited for the pipe and not written.
abbrev pub is_writing : ChildPc → ℕ
is_writing (writing n) = 1
is_writing pc = 0

-- A child between the wait for the log and its post.
abbrev pub is_logging : ChildPc → ℕ
is_logging (logging n) = 1
is_logging pc = 0

-- A child that has a client and has not reported it.
abbrev pub holding : ChildPc → ℕ
holding (received n) = 1
holding (reading n) = 1
holding (reporting n) = 1
holding (writing n) = 1
holding pc = 0

abbrev pub holds : ℕ → ChildPc → ℕ
holds d (received n) = same n d
holds d (reading n) = same n d
holds d (reporting n) = same n d
holds d (writing n) = same n d
holds d pc = 0

-- The parent between the wait for domain_write and the post of domain_read.
abbrev pub parent_passing : ParentPc → ℕ
parent_passing (sends p n) = 1
parent_passing (posts p n) = 1
parent_passing pc = 0

abbrev pub parent_posting : ParentPc → ℕ
parent_posting (posts p n) = 1
parent_posting pc = 0

-- The parent between its read of the pipe and its post.
abbrev pub parent_reporting : ParentPc → ℕ
parent_reporting (reports n) = 1
parent_reporting pc = 0

-- The parent with a client that a child has reported.
abbrev pub parent_holding : ParentPc → ℕ
parent_holding (reports n) = 1
parent_holding (enables n) = 1
parent_holding pc = 0

abbrev pub parent_holds : ℕ → ParentPc → ℕ
parent_holds d (reports n) = same n d
parent_holds d (enables n) = same n d
parent_holds d pc = 0

-- The parent with a client that it has sent and not disabled.
abbrev pub parent_sent : ParentPc → ℕ
parent_sent (posts p n) = 1
parent_sent (disables p n) = 1
parent_sent pc = 0

abbrev pub parent_sent_client : ℕ → ParentPc → ℕ
parent_sent_client d (posts p n) = same n d
parent_sent_client d (disables p n) = same n d
parent_sent_client d pc = 0

abbrev pub is_off : Slot → ℕ
is_off (off n) = 1
is_off slot = 0

abbrev pub is_off_client : ℕ → Slot → ℕ
is_off_client d (off n) = same n d
is_off_client d slot = 0

-- The slot that the parent is at, in `p_send_to_child` or back from it.
abbrev pub AtSlot : ℕ → (ℕ → Slot) → ParentPc → Type 0
AtSlot m slots (waits p n) = (p < m) × (slots p ≡ on n)
AtSlot m slots (sends p n) = (p < m) × (slots p ≡ on n)
AtSlot m slots (posts p n) = (p < m) × (slots p ≡ on n)
AtSlot m slots (disables p n) = (p < m) × (slots p ≡ on n)
AtSlot m slots pc = Unit {0}

-- What holds in every state that a run reaches: one token for the domain socket, one for the pipe and
-- one for the log; one message for each value of domain_read; as many disabled slots as clients on
-- their way, each by its number; different clients in different slots.
pub record Inv (k m : ℕ) (s : System) : Type 0 where
  pub domain_token :
      s.domain_write + s.domain_read + sum is_passing k s.children + parent_passing s.parent ≡ 1
  pub messages : length s.domain ≡ s.domain_read + sum is_got k s.children + parent_posting s.parent
  pub pipe_token :
      s.pipe_write + sum is_writing k s.children + length s.pipe + parent_reporting s.parent ≡ 1
  pub log_token : s.log + sum is_logging k s.children ≡ 1
  pub on_the_way :
      length s.domain + sum holding k s.children + length s.pipe + parent_holding s.parent
      ≡ sum is_off m s.slots + parent_sent s.parent
  pub clients_on_the_way :
      (d : ℕ)
      → occurrences d s.domain
          + sum (holds d) k s.children
          + occurrences d s.pipe
          + parent_holds d s.parent
        ≡ sum (is_off_client d) m s.slots + parent_sent_client d s.parent
  pub one_slot : (d : ℕ) → sum (is_client d) m s.slots ≤ 1
  pub at_slot : AtSlot m s.slots s.parent
