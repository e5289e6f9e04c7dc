-- ===== src/Process/Interleaving/Safety.antt =====
-- What no run of the processes does, whatever the order of their steps.
use mathlib.Core.Path.{ap₂}
use scalable_server.Process.Interleaving.Slots.{sum-is_off_client-le, sum-is_off_client-lt}
use scalable_server.Process.Interleaving.Counts.{
  parent_passing, parent_posting, is_passing, is_got, is_logging, parent_sent_client, is_off_client,
  holds, AtSlot,
}
use scalable_server.Process.Interleaving.Invariant.{Reach-Inv}
use scalable_server.Process.Interleaving.System.{
  on, disables, posts, is_client, logging, got, Reach, ParentPc, System, Slot,
}
use scalable_server.Prelude.{
  inr, one_member, sum_mono, inl, refl, weight-le-sum, ◌⊎◌, ◌∷◌, [], arith, ℕ_discrete, ◌+◌, ◌<◌,
  ◌≤◌, ◌≡◌, sum, length, ℕ, List,
}

posting-le : (pc : ParentPc) → parent_posting pc ≤ parent_passing pc
posting-le pc = ground arith

singleton : (xs : List ℕ) → length xs ≡ 1 → (n : ℕ) × (xs ≡ n ∷ [])
singleton [] e = absurd (omega arith)
singleton (x ∷ []) e = (x, refl)
singleton (x ∷ y ∷ xs) e = absurd (omega arith)

sent-on_the_way :
    (m d : ℕ) (slots : ℕ → Slot) (pc : ParentPc)
    → AtSlot m slots pc
    → sum (is_client d) m slots ≤ 1
    → sum (is_off_client d) m slots + parent_sent_client d pc ≤ 1
sent-on_the_way m d slots (posts p n) (lt, e) le = elim (ℕ_discrete n d) [
  | yes q ↦ ground (arith, sum-is_off_client-lt d m p slots lt (ground arith))
  | no q ↦ ground (arith, sum-is_off_client-le d m slots)
]
sent-on_the_way m d slots (disables p n) (lt, e) le = elim (ℕ_discrete n d) [
  | yes q ↦ ground (arith, sum-is_off_client-lt d m p slots lt (ground arith))
  | no q ↦ ground (arith, sum-is_off_client-le d m slots)
]
sent-on_the_way m d slots pc h le = ground (arith, sum-is_off_client-le d m slots)

-- A slot that is on with the number of a client that is sent is the one that the parent is at.
sent_slot :
    (m d p : ℕ) (slots : ℕ → Slot) (pc : ParentPc)
    → AtSlot m slots pc
    → sum (is_client d) m slots ≤ 1
    → 0 < parent_sent_client d pc
    → p < m
    → slots p ≡ on d
    → (pc ≡ posts p d) ⊎ (pc ≡ disables p d)
unfolding is_client
sent_slot m d p slots (posts q n) (lt_q, e_q) le sent lt e = inl (
    ap₂ posts (one_member (is_client d) m q p slots le lt_q lt (ground arith) (ground arith))
      (ground arith))
sent_slot m d p slots (disables q n) (lt_q, e_q) le sent lt e = inr (
    ap₂ disables (one_member (is_client d) m q p slots le lt_q lt (ground arith) (ground arith))
      (ground arith))
sent_slot m d p slots pc h le sent lt e = absurd (ground arith)

module _ {k m : ℕ} {s : System} (r : Reach k m s) where
  open (Reach-Inv r) use {
    domain_token, messages, log_token, pipe_token, clients_on_the_way, one_slot, at_slot,
  }

  -- In every state that a run of `k` children and `m` slots reaches, two different children are not
  -- both between the receipt of the descriptor of the same client and the write of the report of that client.
  pub one_receiver_per_client :
      (i j : ℕ)
      → i < k
      → j < k
      → (d : ℕ) → holds d (s.children i) ≡ 1
      → holds d (s.children j) ≡ 1
      → i ≡ j
  one_receiver_per_client i j lt_i lt_j d hi hj =
      one_member (holds d) k i j s.children
        (omega
          (arith, clients_on_the_way d, sent-on_the_way m d s.slots s.parent at_slot (one_slot d)))
        lt_i lt_j hi hj

  -- In every state that a run of `k` children and `m` slots reaches, while a child is between the
  -- receipt of a client's descriptor and the write of the report of that client, no slot is on with the client's number but
  -- the one that the parent is about to disable after it has sent it.
  pub received_client_is_off :
      (i p d : ℕ)
      → i < k
      → p < m
      → holds d (s.children i) ≡ 1
      → s.slots p ≡ on d
      → (s.parent ≡ posts p d) ⊎ (s.parent ≡ disables p d)
  received_client_is_off i p d lt_i lt_p held e =
      sent_slot m d p s.slots s.parent at_slot (one_slot d)
        (omega (
          arith,
          clients_on_the_way d,
          one_slot d,
          weight-le-sum (holds d) k i s.children lt_i,
          sum-is_off_client-lt d m p s.slots lt_p e,
        ))
        lt_p e

  -- In every state that a run of `k` children and `m` slots reaches, a child that has waited for domain_read
  -- and is at `recvmsg` finds one message on the socket, and no second one.
  pub received_message : (i : ℕ) → i < k → s.children i ≡ got → (n : ℕ) × (s.domain ≡ n ∷ [])
  received_message i lt e = singleton s.domain (
      ground (
        arith,
        messages,
        domain_token,
        weight-le-sum is_got k i s.children lt,
        sum_mono is_got is_passing (λ pc. ground arith) k s.children,
        posting-le s.parent,
      ))

  -- Two different children are not both between the wait for the log and its post.
  one_log_writer :
      (i j : ℕ)
      → i < k
      → j < k
      → (n n' : ℕ) → s.children i ≡ logging n
      → s.children j ≡ logging n'
      → i ≡ j
  one_log_writer i j lt_i lt_j n n' ei ej =
      one_member is_logging k i j s.children (omega (arith, log_token)) lt_i lt_j (ground arith)
        (ground arith)
