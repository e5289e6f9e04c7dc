-- ===== src/Poll/Index.antt =====
-- `get_conn_index` finds the first free slot.
use scalable_server.Prelude.{
  inr, inl, Bool-cases, ℕ, zero, suc, ◌+◌, ◌<◌, ℤ, pos, is_zero, true, false, List, [], ◌∷◌, length,
  get_or, occupied, ◌≡◌, arith,
}
use scalable_server.Poll.State.{conn_index_from, get_conn_index}

-- The slot at `i` is free, and none before it is.
pub record IsFirstFree (xs : List ℤ) (i : ℕ) : Type 0 where
  pub in_range : i < length xs
  pub free : is_zero (get_or xs i (pos 0)) ≡ true
  pub earlier : (j : ℕ) → j < i → is_zero (get_or xs j (pos 0)) ≡ false

later-IsFirstFree :
    (x : ℤ) (xs : List ℤ) (i : ℕ)
    → is_zero x ≡ false
    → IsFirstFree xs i
    → IsFirstFree (x ∷ xs) (suc i)
later-IsFirstFree x xs i taken first = record {
  in_range = omega (arith, first.in_range);
  free = first.free;
  earlier = go;
}
  where
    go : (j : ℕ) → j < suc i → is_zero (get_or (x ∷ xs) j (pos 0)) ≡ false
    go zero lt = taken
    go (suc j) lt = first.earlier j (omega arith)

conn_index_from_lem :
    (k : ℕ) (xs : List ℤ) (start : ℕ)
    → occupied xs < length xs
    → (i : ℕ) × (conn_index_from k xs start ≡ k + i) × IsFirstFree xs i
unfolding conn_index_from occupied
conn_index_from_lem k [] start h = absurd (omega arith)
conn_index_from_lem k (x ∷ xs) start h = elim (Bool-cases (is_zero x)) [
  | inl free ↦ (
    0,
    rw free (omega arith),
    record { in_range = omega arith; free = free; earlier = λ j lt. absurd (omega arith) },
  )
  | inr taken ↦
      let (i, e, first) = conn_index_from_lem (suc k) xs start (ground arith) in
      (suc i, rw taken (omega (arith, e)), later-IsFirstFree x xs i taken first)
]

-- With fewer taken slots than slots, the index returned is in range, its slot is free, and no slot before
-- it is.
pub get_conn_index-IsFirstFree :
    (xs : List ℤ) → occupied xs < length xs → IsFirstFree xs (get_conn_index xs)
unfolding get_conn_index
get_conn_index-IsFirstFree xs h =
    let (i, e, first) = conn_index_from_lem 0 xs 0 h in
    let e' : conn_index_from 0 xs 0 ≡ i = omega (arith, e) in rw e' first
