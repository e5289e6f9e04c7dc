-- ===== src/Process/Interleaving/Calls.antt =====
-- A child's calls on what the processes share come in the order of its moves.
use scalable_server.Process.Interleaving.System.{
  post_log, post_write, receive, wait_log, wait_pipe, wait_read, write, ChildMove, ChildPc, Shared,
}
use scalable_server.Prelude.{◌++◌, ◌∷◌, [], List}
use scalable_server.Os.{
  err, fault, more, Event, domain_read, domain_write, pipe_write, log_line, read_int, write_int,
  log_file, recvmsg, sendmsg, sem_post, did, resume, M, ret, Res, Machine, sem_wait, Call, Sem,
}

-- What a call does to a semaphore, the domain socket, the pipe or the log.
pub data Action : Type 0 where
  waits_for : Sem → Action
  posts_to : Sem → Action
  sends_message : Action
  receives_message : Action
  writes_report : Action
  reads_report : Action
  prints : Action

unfoldable pub action : Call → List Action
action (sem_wait s) = waits_for s ∷ []
action (sem_post s) = posts_to s ∷ []
action (sendmsg socket n fd) = sends_message ∷ []
action (recvmsg socket) = receives_message ∷ []
action (write_int fd n) = writes_report ∷ []
action (read_int fd) = reads_report ∷ []
action (log_line fields) = prints ∷ []
action c = []

-- Those of a trace, the last first.
unfoldable pub actions : List Event → List Action
actions [] = []
actions (did c a ∷ t) = action c ++ actions t

-- Those of a move, the last first.
unfoldable pub does : {sh sh' : Shared} {pc pc' : ChildPc} → ChildMove sh pc sh' pc' → List Action
does (wait_read e) = waits_for domain_read ∷ []
does (receive e) = receives_message ∷ []
does post_write = posts_to domain_write ∷ []
does (wait_pipe e) = waits_for pipe_write ∷ []
does write = writes_report ∷ []
does (wait_log e) = waits_for log_file ∷ []
does post_log = posts_to log_file ∷ prints ∷ []
does mv = []

-- Moves of a child from `pc`, where `from` are the actions before.
pub data ChildPath (pc : ChildPc) (from : List Action) : ChildPc → List Action → Type 0 where
  stays : ChildPath pc from pc from
  moves :
      {pc' pc'' : ChildPc} {xs : List Action} {sh sh' : Shared}
      → ChildPath pc from pc' xs
      → (mv : ChildMove sh pc' sh' pc'') → ChildPath pc from pc'' (does mv ++ xs)

join_paths :
    {pc pc' : ChildPc} {from xs : List Action} {pc'' : ChildPc} {ys : List Action}
    → ChildPath pc from pc' xs
    → ChildPath pc' xs pc'' ys
    → ChildPath pc from pc'' ys
join_paths h stays = h
join_paths h (moves rest mv) = moves (join_paths h rest) mv

-- Code that returns has taken a child from `pc` to `pc'`; code that ends in another way has taken it
-- along the same moves, up to some of them.
abbrev pub Walks : {S A : Type 0} → ChildPc → ChildPc → List Action → Res A × Machine S → Type 0
Walks pc pc' from (ret a, v) = ChildPath pc from pc' (actions v.trace)
Walks pc pc' from (r, v) = (at : ChildPc) × ChildPath pc from at (actions v.trace)

-- What holds where the code returns.
abbrev pub Leaves : {S A : Type 0} → (Machine S → Type 0) → Res A × Machine S → Type 0
Leaves P (ret a, v) = P v
Leaves P (r, v) = Unit {0}

pub resume-Walks_if :
    {S A B : Type 0} (P : Machine S → Type 0) (pc pc' pc'' : ChildPc) (w : Machine S)
    (r : Res A × Machine S) (f : A → M S B)
    → Walks pc pc' (actions w.trace) r
    → Leaves P r
    → ((a : A) (v : Machine S) → P v → Walks pc' pc'' (actions v.trace) (f a v))
    → Walks pc pc'' (actions w.trace) (resume r f)
resume-Walks_if {S = S} {B = B} P pc pc' pc'' w (ret a, v) f h p next = go (f a v) (next a v p)
  where
    go :
        (r : Res B × Machine S)
        → Walks pc' pc'' (actions v.trace) r
        → Walks pc pc'' (actions w.trace) r
    go (ret b, u) h' = join_paths h h'
    go (err, u) h' = (h'.0, join_paths h h'.1)
    go (fault, u) h' = (h'.0, join_paths h h'.1)
    go (more, u) h' = (h'.0, join_paths h h'.1)
resume-Walks_if P pc pc' pc'' w (err, v) f h p next = h
resume-Walks_if P pc pc' pc'' w (fault, v) f h p next = h
resume-Walks_if P pc pc' pc'' w (more, v) f h p next = h

Leaves-Unit : {S A : Type 0} (r : Res A × Machine S) → Leaves (λ v. Unit {0}) r
Leaves-Unit (ret a, v) = tt
Leaves-Unit (err, v) = tt
Leaves-Unit (fault, v) = tt
Leaves-Unit (more, v) = tt

pub resume-Walks :
    {S A B : Type 0} (pc pc' pc'' : ChildPc) (w : Machine S) (r : Res A × Machine S) (f : A → M S B)
    → Walks pc pc' (actions w.trace) r
    → ((a : A) (v : Machine S) → Walks pc' pc'' (actions v.trace) (f a v))
    → Walks pc pc'' (actions w.trace) (resume r f)
resume-Walks pc pc' pc'' w r f h next =
    resume-Walks_if (λ v. Unit {0}) pc pc' pc'' w r f h (Leaves-Unit r) (λ a v t. next a v)
