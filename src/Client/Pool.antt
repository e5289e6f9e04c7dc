-- ===== src/Client/Pool.antt =====
-- The threads that client/src/thread.c counts have slots in its array of ids.
mod Stop
pub use Stop.*
use scalable_server.Prelude.{
  take, drop, map, List, [], ◌++◌, ◌<◌, Bool, inr, inl, Option-cases, get_or, lt→ltb, suc, ◌+◌,
  length, ◌≡◌, ℕ,
}
use scalable_server.Os.{
  Call, calls, followed_by, followed_by-append, free, pthread_join, pthread_cancel, ret, Machine,
  Res,
}
use scalable_server.Client.State.{bytes_of, Client}
use scalable_server.Client.Thread.{release_ids, thread_id_at, join_from, cancel_from}
use Prim.Native.Nat.{suc, ℕ}

-- `i` threads are counted, and the array has `total` slots.
abbrev Slots : ℕ → ℕ → Client → Type 0
Slots i total c = (c.n_threads ≡ i) × (length (bytes_of c.t_ids) ≡ total)

-- One more thread is counted if the code returns, and none if it fails.
abbrev Added : ℕ → ℕ → Res (Unit {0}) × Machine Client → Type 0
Added i total (ret _, v) = Slots (i + 1) total v.st
Added i total (r, v) = Slots i total v.st
