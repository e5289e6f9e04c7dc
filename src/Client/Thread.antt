-- ===== src/Client/Thread.antt =====
-- client/src/thread.c.
use scalable_server.Controller.Util.{init_addr}
use scalable_server.Client.State.{bytes_of, c_string, Client, Threads}
use Prim.Native.Nat.{suc, ℕ}
use scalable_server.Os.{
  set_errno, fail, pthread_create, ok, give_up, calloc, put, non_null, sysconf, free, malloc,
  pthread_join, pthread_cancel, attempt, get, call, ◌>>=◌, pure, ◌>>◌, undefined, M, Platform,
}
use scalable_server.Prelude.{
  get_or, true, length, zero, ltb, eqb_ℤ, ◌-◌, replicate, ◌+◌, if◌then◌else◌, set, suc, ◌++◌, ◌^◌,
  some, Bool, ◌%◌, take, negsuc, none, ◌*◌, List, pos, ℤ, ℕ, Option,
}

-- A read through a pointer that may be NULL.
abbrev pub deref : {S A : Type 0} → Option A → M S A
deref none = undefined
deref (some x) = pure x

-- What strncpy(dst, src, n) writes.
abbrev pub strncpy : ℕ → List ℕ → List ℕ
strncpy n src = take n (c_string src ++ replicate n 0)

-- (size_t) (n * sizeof(pthread_t))
abbrev pub ids_size : ℤ → ℕ
ids_size (pos n) = n * 8 % 2 ^ 64
ids_size (negsuc n) = (2 ^ 64 - suc n * 8 % 2 ^ 64) % 2 ^ 64

-- The rounds of a loop from 0 up to `n`.
abbrev pub rounds_to : ℤ → ℕ
rounds_to (pos n) = n
rounds_to (negsuc n) = 0

-- sizeof(struct handle_args)
abbrev pub handle_args_size : ℕ
handle_args_size = 40

-- `t_ids[i] = id; n_threads++`
unfoldable pub add_thread : ℕ → ℕ → Threads → Threads
add_thread i id t = record t {
  t_ids = elim t.t_ids [
    | none ↦ none
    | some block ↦ some (record block { bytes = set block.bytes i id })
  ];
  n_threads = t.n_threads + 1;
}

module _ (os : Platform) where
  unfoldable pub get_processors : M Client (Unit {0})
  get_processors = do
    processors ← call os sysconf
    s ← get
    if eqb_ℤ s.n_processors (negsuc 0) then give_up else pure tt
    elim processors [
      | ok n ↦ put (record s { threads = record s.threads { n_processors = pos n } })
      | fail e ↦ do
        set_errno e
        put (record s { threads = record s.threads { n_processors = negsuc 0 } })
    ]

  -- `free(h_args->data); free(h_args); return -1`
  unfoldable pub drop_args : ℕ → ℕ → M Client (Unit {0})
  drop_args copy h_args = do call os (free copy); call os (free h_args); give_up

  -- What follows the allocations for thread `i`.
  unfoldable pub create_thread : ℕ → ℕ → ℕ → M Client (Unit {0})
  create_thread i h_args copy = do
    s ← get
    source ← deref s.contents
    ip ← deref s.server_ip
    server_addr ← attempt (init_addr os (c_string ip.bytes) s.server_port)
    elim server_addr [
      | none ↦ drop_args copy h_args
      | some addr ↦ do
        created ← call os (pthread_create i addr (strncpy s.data_size source.bytes) s.data_size)
        elim created [
          | none ↦ drop_args copy h_args
          | some id ↦ put (record s { threads = add_thread i id s.threads })
        ]
    ]

  -- The body of the loop.
  unfoldable pub add_worker : ℕ → M Client (Unit {0})
  add_worker i = do
    h_args ← non_null (← call os (malloc handle_args_size))
    s ← get
    copy ← call os (calloc s.data_size)
    elim copy [
      | none ↦ do call os (free h_args); give_up
      | some pointer ↦ create_thread i h_args pointer
    ]

  -- The loop, for the threads from `i` on.
  unfoldable pub create_from : ℕ → ℕ → M Client (Unit {0})
  create_from zero i = pure tt
  create_from (suc rounds) i = add_worker i >>= λ _. create_from rounds (suc i)

  unfoldable pub create_threads : ℤ → M Client (Unit {0})
  create_threads n = do
    pointer ← call os (malloc (ids_size n))
    s ← get
    put (record s {
      threads = record s.threads {
        t_ids = elim pointer [
          | none ↦ none
          | some p ↦ some (record { pointer = p; bytes = replicate (rounds_to n) 0 })
        ];
      };
    })
    allocated ← non_null pointer
    create_from (rounds_to n) 0

  -- `t_ids[i]`
  unfoldable pub thread_id_at : ℕ → M Client ℕ
  thread_id_at i = do
    s ← get
    if ltb i (length (bytes_of s.t_ids)) then pure (get_or (bytes_of s.t_ids) i 0) else undefined

  -- The pthread functions return a positive number on failure, so the tests against -1 do not succeed.
  unfoldable pub cancel_from : ℕ → ℕ → M Client (Unit {0})
  cancel_from zero i = pure tt
  cancel_from (suc rounds) i =
      thread_id_at i >>= λ id. call os (pthread_cancel id) >>= λ _. cancel_from rounds (suc i)

  unfoldable pub join_from : ℕ → ℕ → M Client (Unit {0})
  join_from zero i = pure tt
  join_from (suc rounds) i =
      thread_id_at i >>= λ id. call os (pthread_join id) >>= λ _. join_from rounds (suc i)

  -- What follows the two loops of `stop_threads`.
  unfoldable pub release_ids : M Client Bool
  release_ids = do
    s ← get
    elim s.t_ids [ none ↦ pure tt | some block ↦ call os (free block.pointer) ]
    t ← get
    put (record t { threads = record t.threads { t_ids = none; n_threads = 0 } })
    pure true

  unfoldable pub stop_threads : M Client Bool
  stop_threads = do
    s ← get
    cancel_from s.n_threads 0
    t ← get
    join_from t.n_threads 0
    release_ids

  unfoldable pub start_threads : M Client (Unit {0})
  start_threads = do
    get_processors
    s ← get
    result ← attempt (create_threads s.n_processors)
    elim result [ some _ ↦ pure tt | none ↦ stop_threads >>= λ _. give_up ]
