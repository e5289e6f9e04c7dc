-- ===== src/Process/Interleaving/System.antt =====
-- process-server/: the parent and the children as processes that run interleaved, between which are the
-- semaphores of setup_teardown.c, the domain socket and the pipe. The state of a process is the next
-- call of process_server.c that it makes on one of these, or what it does between two of them.
use scalable_server.Prelude.{
  ◌++◌, ◌∷◌, ◌≤◌, suc, ◌==◌, sum, set_at, ◌<◌, if◌then◌else◌, ◌≡◌, List, [], ℕ,
}

-- A client's pollfd: zeroed, with a descriptor, or with a negated one, which `poll` passes over.
pub data Slot : Type 0 where
  free : Slot
  on : ℕ → Slot
  off : ℕ → Slot

-- The values of the semaphores, and the numbers on the socket and in the pipe, the oldest first.
pub record Shared : Type 0 where
  pub domain_write : ℕ
  pub domain_read : ℕ
  pub pipe_write : ℕ
  pub log : ℕ
  pub domain : List ℕ
  pub pipe : List ℕ

-- The parent, at `poll`; in the loop of `p_handle_socket_action`, at the slot `p`; in `p_send_to_child`
-- for the client `n` of the slot `p`, at `sem_wait`, `sendmsg` or `sem_post`; back from it, before it
-- disables the slot; in `p_read_pipe_reenable_fd`, at `sem_post` or after it.
pub data ParentPc : Type 0 where
  polling : ParentPc
  scanning : ℕ → ParentPc
  waits : ℕ → ℕ → ParentPc
  sends : ℕ → ℕ → ParentPc
  posts : ℕ → ℕ → ParentPc
  disables : ℕ → ℕ → ParentPc
  reports : ℕ → ParentPc
  enables : ℕ → ParentPc

-- A child, in `c_get_file_description_from_domain_socket` at `sem_wait`, `recvmsg` or `sem_post`; in
-- the loop that receives the message of the client `n`; in `c_inform_parent_recv_finished` at
-- `sem_wait` or `write`; in `c_log` at `sem_wait`, or about to print and `sem_post`; at `send`. It has
-- the descriptor of the client `n` from `received n` to the end of `replying n`.
pub data ChildPc : Type 0 where
  idle : ChildPc
  got : ChildPc
  received : ℕ → ChildPc
  reading : ℕ → ChildPc
  reporting : ℕ → ChildPc
  writing : ℕ → ChildPc
  at_log : ℕ → ChildPc
  logging : ℕ → ChildPc
  replying : ℕ → ChildPc

-- The loop of `p_read_pipe_reenable_fd`, of one slot.
unfoldable pub reenabled : ℕ → Slot → Slot
reenabled n (off d) = if d == n then on d else off d
reenabled n slot = slot

-- A slot has the client `d`.
unfoldable pub is_client : ℕ → Slot → ℕ
is_client d free = 0
is_client d (on n) = if n == d then 1 else 0
is_client d (off n) = if n == d then 1 else 0

unfoldable pub is_free : Slot → ℕ
is_free free = 1
is_free slot = 0

-- What a child does in one step.
pub data ChildMove (sh : Shared) : ChildPc → Shared → ChildPc → Type 0 where
  wait_read :
      {v : ℕ} → sh.domain_read ≡ suc v → ChildMove sh idle (record sh { domain_read = v }) got
  receive :
      {n : ℕ} {rest : List ℕ}
      → sh.domain ≡ n ∷ rest
      → ChildMove sh got (record sh { domain = rest }) (received n)
  post_write :
      {n : ℕ}
      → ChildMove sh (received n) (record sh { domain_write = suc sh.domain_write }) (reading n)
  read_message : {n : ℕ} → ChildMove sh (reading n) sh (reporting n)
  wait_pipe :
      {n v : ℕ}
      → sh.pipe_write ≡ suc v
      → ChildMove sh (reporting n) (record sh { pipe_write = v }) (writing n)
  write : {n : ℕ} → ChildMove sh (writing n) (record sh { pipe = sh.pipe ++ n ∷ [] }) (at_log n)
  wait_log :
      {n v : ℕ} → sh.log ≡ suc v → ChildMove sh (at_log n) (record sh { log = v }) (logging n)
  post_log : {n : ℕ} → ChildMove sh (logging n) (record sh { log = suc sh.log }) (replying n)
  reply : {n : ℕ} → ChildMove sh (replying n) sh idle

-- What the parent does in one step, of `m` slots. The new descriptor of a connection is not 0 and not
-- that of another open one; it goes to the first free slot. A client that `poll` finds readable or
-- hung up is on; the clients are served when the pipe had nothing.
pub data ParentMove (m : ℕ) (sh : Shared) (slots : ℕ → Slot)
    : ParentPc → Shared → (ℕ → Slot) → ParentPc → Type 0 where
  accept :
      {p n : ℕ}
      → p < m
      → slots p ≡ free
      → sum is_free p slots ≡ 0
      → 0 < n
      → sum (is_client n) m slots ≡ 0
      → ParentMove m sh slots polling sh (set_at p (on n) slots) polling
  scan : sh.pipe ≡ [] → ParentMove m sh slots polling sh slots (scanning 0)
  ready :
      {p n : ℕ} → p < m → slots p ≡ on n → ParentMove m sh slots (scanning p) sh slots (waits p n)
  hang_up :
      {p n : ℕ}
      → p < m
      → slots p ≡ on n
      → ParentMove m sh slots (scanning p) sh (set_at p free slots) (scanning (suc p))
  skip : {p : ℕ} → p < m → ParentMove m sh slots (scanning p) sh slots (scanning (suc p))
  finish : {p : ℕ} → m ≤ p → ParentMove m sh slots (scanning p) sh slots polling
  wait_write :
      {p n v : ℕ}
      → sh.domain_write ≡ suc v
      → ParentMove m sh slots (waits p n) (record sh { domain_write = v }) slots (sends p n)
  send :
      {p n : ℕ}
      → ParentMove m sh slots
          (sends p n)
          (record sh { domain = sh.domain ++ n ∷ [] })
          slots
          (posts p n)
  post_read :
      {p n : ℕ}
      → ParentMove m sh slots
          (posts p n)
          (record sh { domain_read = suc sh.domain_read })
          slots
          (disables p n)
  disable :
      {p n : ℕ}
      → ParentMove m sh slots (disables p n) sh (set_at p (off n) slots) (scanning (suc p))
  read_pipe :
      {n : ℕ} {rest : List ℕ}
      → sh.pipe ≡ n ∷ rest
      → ParentMove m sh slots polling (record sh { pipe = rest }) slots (reports n)
  post_pipe :
      {n : ℕ}
      → ParentMove m sh slots
          (reports n)
          (record sh { pipe_write = suc sh.pipe_write })
          slots
          (enables n)
  enable : {n : ℕ} → ParentMove m sh slots (enables n) sh (λ p. reenabled n (slots p)) polling

pub record System : Type 0 where
  pub shared : Shared
  pub open shared use *
  pub slots : ℕ → Slot
  pub parent : ParentPc
  pub children : ℕ → ChildPc

-- One step of the parent or of one of the `k` children.
pub data Step (k m : ℕ) (s : System) : System → Type 0 where
  by_parent :
      {sh : Shared} {slots : ℕ → Slot} {pc : ParentPc}
      → ParentMove m s.shared s.slots s.parent sh slots pc
      → Step k m s (record { shared = sh; slots = slots; parent = pc; children = s.children })
  by_child :
      {sh : Shared} {pc : ChildPc} (i : ℕ)
      → i < k
      → ChildMove s.shared (s.children i) sh pc
      → Step k m s (record s { shared = sh; children = set_at i pc s.children })

-- `open_semaphores`, and the fork, after which every process enters its loop.
abbrev pub init : System
init = record {
  shared = record {
    domain_write = 1;
    domain_read = 0;
    pipe_write = 1;
    log = 1;
    domain = [];
    pipe = [];
  };
  slots = λ p. free;
  parent = polling;
  children = λ i. idle;
}

-- The states that a run of `k` children and `m` slots reaches.
pub data Reach (k m : ℕ) : System → Type 0 where
  start : Reach k m init
  later : {s t : System} → Reach k m s → Step k m s t → Reach k m t
