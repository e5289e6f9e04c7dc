-- ===== src/Client/Exchanging.antt =====
-- What a thread of the client exchanges with the server over one connection (client/src/handle.c).
use scalable_server.Prelude.{
  append_assoc, append-nil, arith, ◌+◌, true, [], refl, inr, zero, ◌∙◌, inl, ltb, none, Bool-cases,
  length, ◌-◌, some, drop, take, ◌∷◌, suc, Option, ◌++◌, ◌^◌, ◌≡◌, ◌%◌, ℕ, List, ℤ,
}
use scalable_server.Os.{
  M, resume, pure, ◌>>=◌, attempt, more, did, ok, fault, fail, err, write, read, Ret, ret, Res,
  Machine, Platform,
}
use scalable_server.Client.Worker.{exchange}
use scalable_server.Client.State.{HandleArgs}
use scalable_server.Client.Receiving.{Delivers, consumed, consumed-write, read_fully-Got}
use scalable_server.Client.Util.{read_fully, read_loop}
use scalable_server.Controller.Writing.{
  for_fd-same, for_fd, WritesSome, Wrote, written, written-read, write_fully-Wrote,
}
use scalable_server.Controller.Util.{write_fully, write_loop}

-- The size and the data, as they are sent.
abbrev pub request : Platform → HandleArgs → List ℕ
request os h_args =
    os.bytes32 (os.htonl (h_args.data_size % 2 ^ 32))
    ++ take (h_args.data_size % 2 ^ 32) h_args.contents.bytes

module _ (os : Platform) {S : Type 0} where
  write_loop-consumed :
      (fd to : ℤ) (rounds : ℕ) (left : List ℕ) (w : Machine S)
      → consumed fd (write_loop os rounds to left w).1.trace ≡ consumed fd w.trace
  unfolding write_loop
  write_loop-consumed fd to zero left w = refl
  write_loop-consumed fd to (suc rounds) [] w = refl
  write_loop-consumed fd to (suc rounds) (x ∷ xs) w =
      go (λ n. write_loop-consumed fd to rounds (drop n (x ∷ xs)))
        (os.answer w.trace (write to (x ∷ xs))) refl
    where
      go :
          ((n : ℕ) (v : Machine S)
            → consumed fd (write_loop os rounds to (drop n (x ∷ xs)) v).1.trace
              ≡ consumed fd v.trace)
          → (a : Ret ℕ) → os.answer w.trace (write to (x ∷ xs)) ≡ a
          → consumed fd (write_loop os (suc rounds) to (x ∷ xs) w).1.trace ≡ consumed fd w.trace
      go ih (fail e) same = rw (same, write_loop) (consumed-write fd to (x ∷ xs) (fail e) w.trace)
      go ih (ok n) same =
          rw (same, write_loop)
            (ih n (record w { trace = did (write to (x ∷ xs)) (ok n) ∷ w.trace })
              ∙ consumed-write fd to (x ∷ xs) (ok n) w.trace)

  read_loop-written :
      (to fd : ℤ) (rounds room size : ℕ) (got : List ℕ) (w : Machine S)
      → written to (read_loop os rounds fd room size got w).1.trace ≡ written to w.trace
  unfolding read_loop
  read_loop-written to fd zero room size got w = refl
  read_loop-written to fd (suc rounds) room size got w = elim (Bool-cases (ltb (length got) size)) [
    | inl short ↦
        go short (λ bytes. read_loop-written to fd rounds room size (got ++ bytes))
          (os.answer w.trace (read fd (size - length got))) refl
    | inr full ↦ rw full refl
  ]
    where
      go :
          ltb (length got) size ≡ true
          → ((bytes : List ℕ) (v : Machine S)
              → written to (read_loop os rounds fd room size (got ++ bytes) v).1.trace
                ≡ written to v.trace)
          → (a : Ret (List ℕ)) → os.answer w.trace (read fd (size - length got)) ≡ a
          → written to (read_loop os (suc rounds) fd room size got w).1.trace ≡ written to w.trace
      go short ih (fail e) same =
          rw (short, same) (written-read to fd (size - length got) (fail e) w.trace)
      go short ih (ok bytes) same = elim (Bool-cases (ltb room (length got + length bytes))) [
        | inl over ↦
            rw (short, same, over) (written-read to fd (size - length got) (ok bytes) w.trace)
        | inr fits ↦
            rw (short, same, fits)
              (ih bytes
                  (record w { trace = did (read fd (size - length got)) (ok bytes) ∷ w.trace })
                ∙ written-read to fd (size - length got) (ok bytes) w.trace)
      ]

  -- An exchange returns. If it succeeds, the thread has written the request and nothing else to the server, has read the four bytes
  -- that come and no further one, and has the number in them.
  abbrev pub Exchanged :
      ℤ → List ℕ → List ℕ → HandleArgs → List ℕ → Machine S → Res (Option ℕ) × Machine S → Type 0
  Exchanged sock s rest h_args resp w (ret none, v) = Unit
  Exchanged sock s rest h_args resp w (ret (some n), v) =
      (n ≡ os.ntohl (os.word32 resp) % 2 ^ 32)
      × (written sock v.trace ≡ written sock w.trace ++ request os h_args)
      × (consumed sock v.trace ++ rest ≡ s)
  Exchanged sock s rest h_args resp w (err, v) = ⊥
  Exchanged sock s rest h_args resp w (fault, v) = ⊥
  Exchanged sock s rest h_args resp w (more, v) = ⊥

  -- The part of the exchange that reads.
  read_answer-Exchanged :
      (sock : ℤ) (s resp rest : List ℕ) (h_args : HandleArgs) (w v : Machine S)
      → Delivers os sock s
      → (consumed sock w.trace ++ resp) ++ rest ≡ s
      → length resp ≡ 4
      → written sock v.trace ≡ written sock w.trace ++ request os h_args
      → consumed sock v.trace ≡ consumed sock w.trace
      → Exchanged sock s rest h_args resp w (
          attempt
            (read_fully os sock 4 4 >>= λ server_resp.
              pure (os.ntohl (os.word32 server_resp) % 2 ^ 32))
            v)
  unfolding read_fully
  read_answer-Exchanged sock s resp rest h_args w v law left four wrote kept =
      read_fully-Got os sock s rest law
        (λ r.
          written sock r.1.trace ≡ written sock v.trace
          → Exchanged sock s rest h_args resp w (
              attempt
                (λ _. resume r (λ server_resp. pure (os.ntohl (os.word32 server_resp) % 2 ^ 32)))
                v))
        4 4 resp [] v.trace v.errno v.st (rw (append-nil resp, kept) left) four (omega arith)
        (λ t e left' same. (refl, same ∙ wrote, rw (append-nil (consumed sock t)) at left'))
        (read_loop-written sock sock 5 4 4 [] v)

  -- Where write() takes a byte at least and the stream delivers four bytes or more, an exchange
  -- returns, with or without a result. With one, what was written to the server is the request,
  -- whole and in order; the next four bytes of the stream were read and no further one, and the
  -- result is the number in them.
  pub exchange-Exchanged :
      (sock : ℤ) (s resp rest : List ℕ) (h_args : HandleArgs) (w : Machine S)
      → WritesSome os
      → Delivers os sock s
      → (consumed sock w.trace ++ resp) ++ rest ≡ s
      → length resp ≡ 4
      → Exchanged sock s rest h_args resp w (exchange os sock h_args w)
  unfolding exchange write_fully
  exchange-Exchanged sock s resp rest h_args w writes law left four =
      first (write_fully os sock size w) (write_fully-Wrote os writes sock sock size w)
        (write_loop-consumed sock sock (suc (length size)) size w)
    where
      size : List ℕ
      size = os.bytes32 (os.htonl (h_args.data_size % 2 ^ 32))

      content : List ℕ
      content = take (h_args.data_size % 2 ^ 32) h_args.contents.bytes

      read_answer : M S ℕ
      read_answer =
          read_fully os sock 4 4 >>= λ server_resp. pure (os.ntohl (os.word32 server_resp) % 2 ^ 32)

      whole :
          (u v : Machine S)
          → written sock u.trace ≡ written sock w.trace ++ for_fd sock sock size
          → written sock v.trace ≡ written sock u.trace ++ for_fd sock sock content
          → written sock v.trace ≡ written sock w.trace ++ request os h_args
      whole u v wrote wrote' =
          wrote'
          ∙ rw (wrote, for_fd-same sock size, for_fd-same sock content)
              (append_assoc (written sock w.trace) size content)

      second :
          (u : Machine S) (r : Res (Unit {0}) × Machine S)
          → written sock u.trace ≡ written sock w.trace ++ for_fd sock sock size
          → consumed sock u.trace ≡ consumed sock w.trace
          → Wrote os sock (for_fd sock sock content) u r
          → consumed sock r.1.trace ≡ consumed sock u.trace
          → Exchanged sock s rest h_args resp w (attempt (λ _. resume r (λ _. read_answer)) u)
      second u (ret x, v) wrote kept wrote' kept' =
          read_answer-Exchanged sock s resp rest h_args w v law left four (whole u v wrote wrote'.0)
            (kept' ∙ kept)
      second u (err, v) wrote kept wrote' kept' = tt
      second u (fault, v) wrote kept wrote' kept' = wrote'
      second u (more, v) wrote kept wrote' kept' = wrote'

      first :
          (r : Res (Unit {0}) × Machine S)
          → Wrote os sock (for_fd sock sock size) w r
          → consumed sock r.1.trace ≡ consumed sock w.trace
          → Exchanged sock s rest h_args resp w
              (attempt (λ _. resume r (λ _. write_fully os sock content >>= λ _. read_answer)) w)
      first (ret x, u) wrote kept =
          second u (write_fully os sock content u) wrote.0 kept
            (write_fully-Wrote os writes sock sock content u)
            (write_loop-consumed sock sock (suc (length content)) content u)
      first (err, u) wrote kept = tt
      first (fault, u) wrote kept = wrote
      first (more, u) wrote kept = wrote
