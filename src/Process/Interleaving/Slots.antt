-- ===== src/Process/Interleaving/Slots.antt =====
-- What the parent's loop over the slots that enables a client changes in the counts.
use scalable_server.Process.Interleaving.Counts.{same, is_off_client, is_off}
use scalable_server.Process.Interleaving.System.{on, Slot, reenabled, is_client}
use scalable_server.Prelude.{
  sum_mono, dec_lt, ◌<◌, refl, suc, zero, ◌*◌, arith, ◌+◌, ◌≤◌, ◌≡◌, sum, ℕ,
}

pub is_off_client-le : (d : ℕ) (slot : Slot) → is_off_client d slot ≤ is_client d slot
unfolding is_client
is_off_client-le d slot = ground arith

pub sum-is_off_client-le :
    (d m : ℕ) (f : ℕ → Slot) → sum (is_off_client d) m f ≤ sum (is_client d) m f
sum-is_off_client-le d = sum_mono (is_off_client d) (is_client d) (is_off_client-le d)

-- A slot that is on with the number `d` is not counted as off.
pub sum-is_off_client-lt :
    (d m p : ℕ) (f : ℕ → Slot)
    → p < m
    → f p ≡ on d
    → sum (is_off_client d) m f < sum (is_client d) m f
unfolding sum is_client
sum-is_off_client-lt d zero p f lt e = absurd (omega arith)
sum-is_off_client-lt d (suc m) p f lt e = elim (dec_lt p m) [
  | yes earlier ↦ omega (arith, sum-is_off_client-lt d m p f earlier e, is_off_client-le d (f m))
  | no here ↦ ground (arith, sum-is_off_client-le d m f)
]

module _ (n : ℕ) where
  reenabled-is_off : (slot : Slot) → is_off (reenabled n slot) + is_off_client n slot ≡ is_off slot
  unfolding reenabled
  reenabled-is_off slot = ground arith

  pub sum-reenabled-is_off :
      (m : ℕ) (f : ℕ → Slot)
      → sum is_off m (λ p. reenabled n (f p)) + sum (is_off_client n) m f ≡ sum is_off m f
  unfolding sum
  sum-reenabled-is_off zero f = omega arith
  sum-reenabled-is_off (suc m) f = omega (arith, sum-reenabled-is_off m f, reenabled-is_off (f m))

  reenabled-is_off_client :
      (d : ℕ) (slot : Slot)
      → is_off_client d (reenabled n slot) + same n d * is_off_client d slot ≡ is_off_client d slot
  unfolding reenabled
  reenabled-is_off_client d slot = ground arith

  -- None is off by the number `n` any more; others are as before.
  pub sum-reenabled-is_off_client :
      (d m : ℕ) (f : ℕ → Slot)
      → sum (is_off_client d) m (λ p. reenabled n (f p)) + same n d * sum (is_off_client d) m f
        ≡ sum (is_off_client d) m f
  unfolding sum
  sum-reenabled-is_off_client d zero f = ground arith
  sum-reenabled-is_off_client d (suc m) f =
      ground (arith, sum-reenabled-is_off_client d m f, reenabled-is_off_client d (f m))

  reenabled-is_client : (d : ℕ) (slot : Slot) → is_client d (reenabled n slot) ≡ is_client d slot
  unfolding reenabled is_client
  reenabled-is_client d slot = ground arith

  pub sum-reenabled-is_client :
      (d m : ℕ) (f : ℕ → Slot)
      → sum (is_client d) m (λ p. reenabled n (f p)) ≡ sum (is_client d) m f
  unfolding sum
  sum-reenabled-is_client d zero f = refl
  sum-reenabled-is_client d (suc m) f =
      omega (arith, sum-reenabled-is_client d m f, reenabled-is_client d (f m))
