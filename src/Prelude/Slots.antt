-- ===== src/Prelude/Slots.antt =====
-- Arrays of slots: maps and reads after a write, and how many slots are taken.
use Prim.Native.Nat.{ℕ, zero, suc, ◌≤◌, ◌<◌}
use mathlib.Core.Path.{◌≡◌, refl, ap}
use mathlib.Core.Bool.{true, false}
use mathlib.Core.List.{List, [], ◌∷◌, map}
use native.Mathlib.Omega.{arith}
use scalable_server.Prelude.Tests.{if◌then◌else◌}
use scalable_server.Prelude.Lists.{length, set, get_or}
use scalable_server.Prelude.Int.{ℤ, pos, is_zero}

module _ {ℓ κ} {A : Type ℓ} {B : Type κ} (f : A → B) where
  pub map-set : (xs : List A) (i : ℕ) (v : A) → map f (set xs i v) ≡ set (map f xs) i (f v)
  map-set [] i v = refl
  map-set (x ∷ xs) zero v = refl
  map-set (x ∷ xs) (suc i) v = ap (◌∷◌ (f x)) (map-set xs i v)

  pub get_or-map : (xs : List A) (i : ℕ) (d : A) → get_or (map f xs) i (f d) ≡ f (get_or xs i d)
  get_or-map [] i d = refl
  get_or-map (x ∷ xs) zero d = refl
  get_or-map (x ∷ xs) (suc i) d = get_or-map xs i d

module _ {ℓ} {A : Type ℓ} where
  pub get_or-set_self :
      (xs : List A) (i : ℕ) (v d : A) → i < length xs → get_or (set xs i v) i d ≡ v
  get_or-set_self [] i v d h = absurd (omega arith)
  get_or-set_self (x ∷ xs) zero v d h = refl
  get_or-set_self (x ∷ xs) (suc i) v d h = get_or-set_self xs i v d (omega arith)

  -- A read of slot `j` is the value written there, or what it was.
  pub get_or-set_cases {κ} :
      (P : A → Type κ) (xs : List A) (i j : ℕ) (v d : A)
      → P v
      → P (get_or xs j d)
      → P (get_or (set xs i v) j d)
  get_or-set_cases P [] i j v d pv pj = pj
  get_or-set_cases P (x ∷ xs) zero zero v d pv pj = pv
  get_or-set_cases P (x ∷ xs) zero (suc j) v d pv pj = pj
  get_or-set_cases P (x ∷ xs) (suc i) zero v d pv pj = pj
  get_or-set_cases P (x ∷ xs) (suc i) (suc j) v d pv pj = get_or-set_cases P xs i j v d pv pj

  pub get_or_head-set :
      (xs : List A) (i : ℕ) (v d : A) → get_or (set xs (suc i) v) 0 d ≡ get_or xs 0 d
  get_or_head-set [] i v d = refl
  get_or_head-set (x ∷ xs) i v d = refl

module _ {ℓ} {A : Type ℓ} where
  pub set-get_or : (xs : List A) (i : ℕ) (d : A) → set xs i (get_or xs i d) ≡ xs
  set-get_or [] i d = refl
  set-get_or (x ∷ xs) zero d = refl
  set-get_or (x ∷ xs) (suc i) d = ap (◌∷◌ x) (set-get_or xs i d)

-- How many of the descriptors are not zero.
unfoldable pub occupied : List ℤ → ℕ
occupied [] = 0
occupied (x ∷ xs) = if is_zero x then occupied xs else suc (occupied xs)

pub occupied-le-length : (xs : List ℤ) → occupied xs ≤ length xs
unfolding occupied
occupied-le-length [] = omega arith
occupied-le-length (x ∷ xs) = ground (arith, occupied-le-length xs)

pub occupied-set_free :
    (xs : List ℤ) (i : ℕ) (v : ℤ)
    → i < length xs
    → is_zero (get_or xs i (pos 0)) ≡ true
    → is_zero v ≡ false
    → occupied (set xs i v) ≡ suc (occupied xs)
unfolding occupied
occupied-set_free [] i v h f u = absurd (omega arith)
occupied-set_free (x ∷ xs) zero v h f u = ground arith
occupied-set_free (x ∷ xs) (suc i) v h f u =
    ground (arith, occupied-set_free xs i v (omega arith) f u)

pub occupied-set_used :
    (xs : List ℤ) (i : ℕ)
    → i < length xs
    → is_zero (get_or xs i (pos 0)) ≡ false
    → suc (occupied (set xs i (pos 0))) ≡ occupied xs
unfolding occupied
occupied-set_used [] i h f = absurd (omega arith)
occupied-set_used (x ∷ xs) zero h f = ground arith
occupied-set_used (x ∷ xs) (suc i) h f = ground (arith, occupied-set_used xs i (omega arith) f)
