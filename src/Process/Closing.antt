-- ===== src/Process/Closing.antt =====
-- The parent's teardown: the calls that it makes, in their order.
use scalable_server.Process.State.{StateObject, ParentStruct}
use scalable_server.Process.Parent.{close_fd_report_undefined_error}
use scalable_server.Process.Teardown.{
  p_destroy_parent_state, kill_children, close_pollfds, wait_for_children,
}
use scalable_server.Process.Setup.{close_semaphores}
use scalable_server.Prelude.{◌∙◌, ap, arith, refl, map, [], ℤ, ◌≡◌, ◌∷◌, ℕ, ◌++◌, List}
use scalable_server.Os.{
  Call, call, calls, close, domain_read, domain_write, followed_by, followed_by-append, free,
  ignore, kill, log_file, M, Machine, pipe_write, Platform, Pollfd, Res, ret, Sem, sem_close,
  sem_unlink, sigint, waitpid, >>=-ret, ◌>>=◌,
}

-- The outcome `r` from `w` on: the code returns, leaves the state as it is, and makes the calls `cs` in their order,
-- and no others.
pub record Does {S : Type 0} (cs : List Call) (w : Machine S) (r : Res (Unit {0}) × Machine S)
    : Type 0 where
  pub returns : r.0 ≡ ret tt
  pub state_kept : r.1.st ≡ w.st
  pub made : calls r.1.trace ≡ followed_by (calls w.trace) cs

Does-seq :
    {S : Type 0} (cs cs' : List Call) (m m' : M S (Unit {0}))
    → ((w : Machine S) → Does cs w (m w))
    → ((w : Machine S) → Does cs' w (m' w))
    → (w : Machine S) → Does (cs ++ cs') w ((m >>= λ _. m') w)
Does-seq cs cs' m m' first second w =
    let d = first w in
    let d' = second (m w).1 in
    let e : (m >>= λ _. m') w ≡ m' (m w).1 = >>=-ret m (λ _. m') w tt d.returns in
    rw e (record {
      returns = d'.returns;
      state_kept = d'.state_kept ∙ d.state_kept;
      made =
          d'.made
          ∙ ap (λ xs. followed_by xs cs') d.made
          ∙ followed_by-append (calls w.trace) cs cs';
    })

-- What `close_semaphores` calls.
abbrev pub semaphores_gone : List Call
semaphores_gone =
    sem_close pipe_write
    ∷ sem_close domain_read
    ∷ sem_close domain_write
    ∷ sem_close log_file
    ∷ sem_unlink pipe_write
    ∷ sem_unlink domain_read
    ∷ sem_unlink domain_write
    ∷ sem_unlink log_file
    ∷ []

module _ (os : Platform) {S : Type 0} where
  close_fd-Does :
      (fd : ℤ) (w : Machine S) → Does (close fd ∷ []) w (close_fd_report_undefined_error os fd w)
  unfolding close_fd_report_undefined_error calls followed_by
  close_fd-Does fd w = record {
    returns = ground arith;
    state_kept = ground arith;
    made = ground arith;
  }

  close_pollfds-Does :
      (ps : List Pollfd) (w : Machine S) → Does (map (λ p. close p.fd) ps) w (close_pollfds os ps w)
  unfolding close_pollfds followed_by
  close_pollfds-Does [] w = record { returns = refl; state_kept = refl; made = refl }
  close_pollfds-Does (p ∷ ps) w =
      Does-seq (close p.fd ∷ []) (map (λ p. close p.fd) ps) _ _ (close_fd-Does p.fd)
        (close_pollfds-Does ps) w

  kill_one-Does :
      (pid : ℕ) (w : Machine S)
      → Does (kill pid sigint ∷ []) w ((call os (kill pid sigint) >>= ignore) w)
  unfolding calls followed_by
  kill_one-Does pid w = record {
    returns = ground arith;
    state_kept = ground arith;
    made = ground arith;
  }

  kill_children-Does :
      (pids : List ℕ) (w : Machine S)
      → Does (map (λ pid. kill pid sigint) pids) w (kill_children os pids w)
  unfolding kill_children followed_by
  kill_children-Does [] w = record { returns = refl; state_kept = refl; made = refl }
  kill_children-Does (pid ∷ pids) w =
      Does-seq (kill pid sigint ∷ []) (map (λ pid. kill pid sigint) pids) _ _ (kill_one-Does pid)
        (kill_children-Does pids) w

  wait_one-Does :
      (pid : ℕ) (w : Machine S) → Does (waitpid pid ∷ []) w ((call os (waitpid pid) >>= ignore) w)
  unfolding calls followed_by
  wait_one-Does pid w = record {
    returns = ground arith;
    state_kept = ground arith;
    made = ground arith;
  }

  wait_for_children-Does :
      (pids : List ℕ) (w : Machine S) → Does (map waitpid pids) w (wait_for_children os pids w)
  unfolding wait_for_children followed_by
  wait_for_children-Does [] w = record { returns = refl; state_kept = refl; made = refl }
  wait_for_children-Does (pid ∷ pids) w =
      Does-seq (waitpid pid ∷ []) (map waitpid pids) _ _ (wait_one-Does pid)
        (wait_for_children-Does pids) w

  free-Does : (p : ℕ) (w : Machine S) → Does (free p ∷ []) w (call os (free p) w)
  unfolding calls followed_by
  free-Does p w = record { returns = ground arith; state_kept = refl; made = refl }

  close_one-Does :
      (s : Sem) (w : Machine S) → Does (sem_close s ∷ []) w ((call os (sem_close s) >>= ignore) w)
  unfolding calls followed_by
  close_one-Does s w = record {
    returns = ground arith;
    state_kept = ground arith;
    made = ground arith;
  }

  unlink_one-Does :
      (s : Sem) (w : Machine S) → Does (sem_unlink s ∷ []) w ((call os (sem_unlink s) >>= ignore) w)
  unfolding calls followed_by
  unlink_one-Does s w = record {
    returns = ground arith;
    state_kept = ground arith;
    made = ground arith;
  }

  close_semaphores-Does : (w : Machine S) → Does semaphores_gone w (close_semaphores os w)
  unfolding close_semaphores
  close_semaphores-Does = Does-seq (sem_close pipe_write ∷ []) _ _ _ (close_one-Does pipe_write) (
      Does-seq (sem_close domain_read ∷ []) _ _ _ (close_one-Does domain_read) (
        Does-seq (sem_close domain_write ∷ []) _ _ _ (close_one-Does domain_write) (
          Does-seq (sem_close log_file ∷ []) _ _ _ (close_one-Does log_file) (
            Does-seq (sem_unlink pipe_write ∷ []) _ _ _ (unlink_one-Does pipe_write) (
              Does-seq (sem_unlink domain_read ∷ []) _ _ _ (unlink_one-Does domain_read) (
                Does-seq (sem_unlink domain_write ∷ []) (sem_unlink log_file ∷ []) _ _
                  (unlink_one-Does domain_write) (unlink_one-Does log_file)))))))

module _ (os : Platform) where
  -- The parent's teardown returns, leaves the state object as it is, and makes exactly these calls in this order: SIGINT to
  -- every child, a wait for every child, a close of its end of the pipe, of its end of the domain socket and of
  -- the descriptor of each pollfd, the release of the parent struct, and a close and an unlink of each semaphore.
  pub p_destroy_parent_state-Does :
      (parent : ParentStruct) (w : Machine StateObject)
      → Does
          (map (λ pid. kill pid sigint) w.st.child_pids
            ++ (map waitpid w.st.child_pids
                ++ (close w.st.c_to_p_pipe_fds.0
                    ∷ close w.st.domain_fds.1
                    ∷ (map (λ p. close p.fd) parent.pollfds
                        ++ (free w.st.struct_pointer ∷ semaphores_gone)))))
          w
          (p_destroy_parent_state os parent w)
  unfolding p_destroy_parent_state
  p_destroy_parent_state-Does parent w =
      Does-seq (map (λ pid. kill pid sigint) w.st.child_pids) _ _ _
        (kill_children-Does os w.st.child_pids)
        (Does-seq (map waitpid w.st.child_pids) _ _ _ (wait_for_children-Does os w.st.child_pids) (
          Does-seq (close w.st.c_to_p_pipe_fds.0 ∷ []) _ _ _
            (close_fd-Does os w.st.c_to_p_pipe_fds.0)
            (Does-seq (close w.st.domain_fds.1 ∷ []) _ _ _ (close_fd-Does os w.st.domain_fds.1) (
              Does-seq (map (λ p. close p.fd) parent.pollfds) _ _ _
                (close_pollfds-Does os parent.pollfds)
                (Does-seq (free w.st.struct_pointer ∷ []) _ _ _ (free-Does os w.st.struct_pointer)
                  (close_semaphores-Does os))))))
        w
