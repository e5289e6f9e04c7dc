-- ===== src/Process/Interleaving/FirstFree.antt =====
-- `p_get_pollfd_index` of process-server/src/process_server.c, with the descriptors read as slots.
use scalable_server.Os.{Pollfd}
use scalable_server.Process.State.{pollfd_index_from}
use scalable_server.Process.Interleaving.System.{free, is_free, off, on, Slot}
use scalable_server.Prelude.{
  ◌+◌, ◌<◌, ◌≡◌, ◌∷◌, [], arith, Bool-cases, false, get_or, inl, inr, is_zero, is_zero-eq, length,
  List, map, negsuc, occupied, pos, refl, suc, zero, ℕ, ℤ,
}

-- A descriptor as `poll` reads it: zeroed, open, or negated.
unfoldable pub slot_of : ℤ → Slot
slot_of (pos zero) = free
slot_of (pos (suc n)) = on (suc n)
slot_of (negsuc n) = off (suc n)

used_slot : (x : ℤ) → is_zero x ≡ false → is_free (slot_of x) ≡ 0
unfolding slot_of is_free
used_slot (pos zero) e = absurd (ground arith)
used_slot (pos (suc n)) e = refl
used_slot (negsuc n) e = refl

-- `p_get_pollfd_index` gives the first slot that is free, if one is.
pub record FirstFree (fds : List ℤ) (i : ℕ) : Type 0 where
  pub in_range : i < length fds
  pub unused : slot_of (get_or fds i (pos 0)) ≡ free
  pub earlier : (j : ℕ) → j < i → is_free (slot_of (get_or fds j (pos 0))) ≡ 0

earlier_slots :
    (x : ℤ)
    → is_zero x ≡ false
    → (fds : List ℤ) (i : ℕ) → ((j : ℕ) → j < i → is_free (slot_of (get_or fds j (pos 0))) ≡ 0)
    → (j : ℕ) → j < suc i
    → is_free (slot_of (get_or (x ∷ fds) j (pos 0))) ≡ 0
earlier_slots x used fds i h zero lt = used_slot x used
earlier_slots x used fds i h (suc j) lt = h j (omega arith)

pub pollfd_index_from-FirstFree :
    (k : ℕ) (ps : List Pollfd)
    → occupied (map (λ p. p.fd) ps) < length (map (λ p. p.fd) ps)
    → (i : ℕ) × (pollfd_index_from k ps ≡ k + i) × FirstFree (map (λ p. p.fd) ps) i
unfolding pollfd_index_from occupied is_free slot_of
pollfd_index_from-FirstFree k [] h = absurd (omega arith)
pollfd_index_from-FirstFree k (p ∷ ps) h = elim (Bool-cases (is_zero p.fd)) [
  | inl e ↦ (
    0,
    rw e (omega arith),
    record {
      in_range = omega arith;
      unused = ground (arith, is_zero-eq p.fd e);
      earlier = λ j lt. absurd (omega arith);
    },
  )
  | inr used ↦
      let (i, e, found) = pollfd_index_from-FirstFree (suc k) ps (ground (arith, used, h)) in
      (
        suc i,
        rw used (omega (arith, e)),
        record {
          in_range = omega (arith, found.in_range);
          unused = found.unused;
          earlier = earlier_slots p.fd used (map (λ p. p.fd) ps) i found.earlier;
        },
      )
]
