-- ===== src/Client/Pool/Stop.antt =====
-- What client/src/thread.c does to stop the threads that are counted.
use scalable_server.Prelude.{
  take, drop, map, List, [], ◌++◌, ◌<◌, Bool, ap, inr, ◌∙◌, inl, Option-cases, ◌∷◌, get_or, zero,
  lt→ltb, true, suc, some, none, Option, arith, refl, ◌+◌, length, ◌≡◌, ◌≤◌, ℕ,
}
use scalable_server.Os.{
  Call, calls, followed_by, followed_by-append, free, get, >>=-ret, pthread_join, pthread_cancel,
  did, ◌>>=◌, ret, Machine, Res, Platform,
}
use scalable_server.Client.State.{Block, bytes_of, Client}
use scalable_server.Client.Thread.{release_ids, thread_id_at, join_from, cancel_from, stop_threads}
use Prim.Native.Nat.{suc, ℕ}

-- No more threads are counted than there are slots.
abbrev pub Fits : Client → Type 0
Fits c = c.n_threads ≤ length (bytes_of c.t_ids)

drop-get_or : (i : ℕ) (xs : List ℕ) → i < length xs → drop i xs ≡ get_or xs i 0 ∷ drop (suc i) xs
drop-get_or i [] lt = absurd (omega arith)
drop-get_or zero (x ∷ xs) lt = refl
drop-get_or (suc i) (x ∷ xs) lt = drop-get_or i xs (omega arith)

module _ (os : Platform) where
  -- What `stop_threads` leaves.
  abbrev pub stopped : Client → Client
  stopped c = record c { threads = record c.threads { t_ids = none; n_threads = 0 } }

  -- A loop over `rounds` ids from `i` on: it returns, the state stays, and it makes the call `c` for each of
  -- these ids in order, and no other call.
  abbrev Walked : (ℕ → Call) → ℕ → ℕ → Machine Client → Res (Unit {0}) × Machine Client → Type 0
  Walked c rounds i w r =
      (r.0 ≡ ret tt)
      × (r.1.st ≡ w.st)
      × (calls r.1.trace
          ≡ followed_by (calls w.trace) (map c (take rounds (drop i (bytes_of w.st.t_ids)))))

  cancel_from-returns :
      (rounds i : ℕ) (w : Machine Client)
      → i + rounds ≤ length (bytes_of w.st.t_ids)
      → Walked pthread_cancel rounds i w (cancel_from os rounds i w)
  unfolding cancel_from thread_id_at followed_by calls
  cancel_from-returns zero i w room = (refl, refl, refl)
  cancel_from-returns (suc rounds) i w room =
      let (done, kept, made) =
        cancel_from-returns rounds (suc i)
          (record w {
            trace =
                did (pthread_cancel (get_or (bytes_of w.st.t_ids) i 0))
                  (os.answer w.trace (pthread_cancel (get_or (bytes_of w.st.t_ids) i 0)))
                ∷ w.trace;
          })
          (omega arith) in
      rw
        (
          lt→ltb i (length (bytes_of w.st.t_ids)) (omega arith),
          drop-get_or i (bytes_of w.st.t_ids) (omega arith),
        )
        (done, kept, made)

  join_from-returns :
      (rounds i : ℕ) (w : Machine Client)
      → i + rounds ≤ length (bytes_of w.st.t_ids)
      → Walked pthread_join rounds i w (join_from os rounds i w)
  unfolding join_from thread_id_at followed_by calls
  join_from-returns zero i w room = (refl, refl, refl)
  join_from-returns (suc rounds) i w room =
      let (done, kept, made) =
        join_from-returns rounds (suc i)
          (record w {
            trace =
                did (pthread_join (get_or (bytes_of w.st.t_ids) i 0))
                  (os.answer w.trace (pthread_join (get_or (bytes_of w.st.t_ids) i 0)))
                ∷ w.trace;
          })
          (omega arith) in
      rw
        (
          lt→ltb i (length (bytes_of w.st.t_ids)) (omega arith),
          drop-get_or i (bytes_of w.st.t_ids) (omega arith),
        )
        (done, kept, made)

  -- The release of the array of ids, where there is one.
  abbrev pub freed : Option Block → List Call
  freed none = []
  freed (some block) = free block.pointer ∷ []

  release_ids-stopped :
      (w : Machine Client)
      → ((release_ids os w).0 ≡ ret true)
        × ((release_ids os w).1.st ≡ stopped w.st)
        × (calls (release_ids os w).1.trace ≡ followed_by (calls w.trace) (freed w.st.t_ids))
  unfolding release_ids calls followed_by
  release_ids-stopped w = elim (Option-cases w.st.t_ids) [
    | inl gone ↦ rw gone (refl, refl, refl)
    | inr (block, there) ↦ rw there (refl, refl, refl)
  ]

  -- The ids of the threads that are counted.
  abbrev pub workers : Client → List ℕ
  workers c = take c.n_threads (bytes_of c.t_ids)

  -- The outcome `r` of `stop_threads` from `w` on: it returns 0; no thread is counted, the array is gone, and
  -- nothing else of the state has changed; and it has called pthread_cancel for each id that was counted, then
  -- pthread_join for each, both in the order of the array, then released the array, and made no other call.
  pub record Stopped (w : Machine Client) (r : Res Bool × Machine Client) : Type 0 where
    pub returns : r.0 ≡ ret true
    pub end : r.1.st ≡ stopped w.st
    pub made :
        calls r.1.trace
        ≡ followed_by (calls w.trace) (
            map pthread_cancel (workers w.st)
            ++ (map pthread_join (workers w.st) ++ freed w.st.t_ids))

  pub stop_threads-Stopped : (w : Machine Client) → Fits w.st → Stopped w (stop_threads os w)
  unfolding stop_threads
  stop_threads-Stopped w fits =
      let (cancelled, kept, made) = cancel_from-returns w.st.n_threads 0 w (omega arith) in
      let v = (cancel_from os w.st.n_threads 0 w).1 in
      let (joined, kept', made') = join_from-returns v.st.n_threads 0 v (rw kept (omega arith)) in
      let u = (join_from os v.st.n_threads 0 v).1 in
      let (cleared, end, made'') = release_ids-stopped u in
      let path : stop_threads os w ≡ release_ids os u =
        >>=-ret (cancel_from os w.st.n_threads 0)
          (λ _. get >>= λ t. join_from os t.n_threads 0 >>= λ _. release_ids os) w tt cancelled
        ∙ >>=-ret (join_from os v.st.n_threads 0) (λ _. release_ids os) v tt joined in
      let same : u.st ≡ w.st = kept' ∙ kept in
      record {
        returns = ap (λ r. r.0) path ∙ cleared;
        end = ap (λ r. r.1.st) path ∙ end ∙ ap stopped same;
        made =
            ap (λ r. calls r.1.trace) path
            ∙ made''
            ∙ ap (λ c. followed_by (calls u.trace) (freed c.t_ids)) same
            ∙ ap (λ xs. followed_by xs (freed w.st.t_ids))
                (made'
                  ∙ ap (λ c. followed_by (calls v.trace) (map pthread_join (workers c))) kept
                  ∙ ap (λ xs. followed_by xs (map pthread_join (workers w.st))) made)
            ∙ followed_by-append _ (map pthread_join (workers w.st)) (freed w.st.t_ids)
            ∙ followed_by-append (calls w.trace) (map pthread_cancel (workers w.st)) _;
      }
