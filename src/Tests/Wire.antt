-- ===== src/Tests/Wire.antt =====
-- A platform whose reads take one byte at a time from a stream, and else answers as `world`.
use scalable_server.Os.{pending_signal, Signalled, ok, read, Answer, Call, Platform, Event}
use scalable_server.Prelude.{
  le→ltb, ltb, not, append_assoc, ◌∙◌, sym, ap, suc, take, min, [], refl, ◌∷◌, ◌≡◌, ◌++◌, length,
  drop, ℕ, ℤ, arith, List,
}
use scalable_server.Client.Message.{Allocates}
use scalable_server.Client.Protocol.{Interop}
use scalable_server.Client.Receiving.{Delivers, consumed}
use scalable_server.Controller.Writing.{WritesSome}
use scalable_server.Tests.World.{world, world_answer, ok-injective}

abbrev wire_answer : ℤ → List ℕ → List Event → (c : Call) → Answer c
wire_answer fd s h (read fd' n) = ok (take (min n 1) (drop (length (consumed fd h)) s))
wire_answer fd s h c = world_answer 3 h c

abbrev pub wire : ℤ → List ℕ → Platform
wire fd s = record (world 3) { answer = wire_answer fd s }

drop-append : (xs ys : List ℕ) → drop (length xs) (xs ++ ys) ≡ ys
drop-append [] ys = refl
drop-append (x ∷ xs) ys = drop-append xs ys

pub wire-Delivers : (fd : ℤ) (s : List ℕ) → Delivers (wire fd s) fd s
wire-Delivers fd s = record {
  delivers = λ h x part rest left. ((x ∷ [], part), next h x part rest left, refl, omega arith);
}
  where
    next :
        (h : List Event) (x : ℕ) (part rest : List ℕ)
        → (consumed fd h ++ (x ∷ part)) ++ rest ≡ s
        → (wire fd s).answer h (read fd (length (x ∷ part))) ≡ ok (x ∷ [])
    next h x part rest left =
        let one : min (suc (length part)) 1 ≡ 1 = omega arith in
        let come : drop (length (consumed fd h)) s ≡ x ∷ (part ++ rest) =
          ap (drop (length (consumed fd h)))
            (sym left ∙ append_assoc (consumed fd h) (x ∷ part) rest)
          ∙ drop-append (consumed fd h) (x ∷ (part ++ rest)) in
        rw (one, come) refl

pub wire-Allocates : (fd : ℤ) (s : List ℕ) → Allocates (wire fd s)
wire-Allocates fd s h n = (4096, refl)

pub wire-WritesSome : (fd : ℤ) (s : List ℕ) → WritesSome (wire fd s)
wire-WritesSome fd s = record {
  write_some = λ h to x xs n e. omega (arith, ok-injective _ _ e);
  write_bounded = λ h to bytes n e. omega (arith, ok-injective _ _ e);
}

pub world-WritesSome : WritesSome (world 3)
world-WritesSome = record {
  write_some = λ h to x xs n e. omega (arith, ok-injective _ _ e);
  write_bounded = λ h to bytes n e. omega (arith, ok-injective _ _ e);
}

pub wire-Interop : (fd : ℤ) (s : List ℕ) → Interop (world 3) (wire fd s)
wire-Interop fd s = record {
  port_back = λ n small. omega arith;
  number_back = λ n small. omega arith;
  bytes16_length = λ n. refl;
  bytes32_length = λ n. refl;
}

-- Where a signal comes by the n-th call.
abbrev stop_answer : ℕ → List Event → (c : Call) → Answer c
stop_answer n h pending_signal = not (ltb (length h) n)
stop_answer n h c = world_answer 3 h c

abbrev pub stopping : ℕ → Platform
stopping n = record (world 3) { answer = stop_answer n }

pub stopping-Signalled : (n : ℕ) → Signalled (stopping n) n
stopping-Signalled n h late = rw (le→ltb (length h) n late) refl

pub stopping-WritesSome : (n : ℕ) → WritesSome (stopping n)
stopping-WritesSome n = record {
  write_some = λ h to x xs k e. omega (arith, ok-injective _ _ e);
  write_bounded = λ h to bytes k e. omega (arith, ok-injective _ _ e);
}
