-- ===== src/Process/Interleaving/ParentMoves.antt =====
-- A step of the parent keeps `Inv`.

use scalable_server.Process.Interleaving.Slots.{
  sum-reenabled-is_off, sum-reenabled-is_off_client, sum-reenabled-is_client, sum-is_off_client-le,
}
use scalable_server.Process.Interleaving.Counts.{
  occurrences-append, parent_sent, is_off, parent_holding, parent_sent_client, parent_passing,
  is_off_client, parent_posting, parent_reporting, parent_holds, AtSlot, Inv, occurrences,
}
use scalable_server.Process.Interleaving.System.{
  post_pipe, post_read, send, enable, off, disable, free, hang_up, on, accept, read_pipe, ready,
  wait_write, scan, ParentMove, is_client, ParentPc, Slot, Shared, System,
}
use scalable_server.Prelude.{
  refl, length-append, ◌∷◌, suc, sum-set_at, arith, [], ◌≤◌, ◌≡◌, ◌+◌, sum, length, ℕ,
}

-- The premise of a move, for the clauses that take all moves.
abbrev pub ParentPremise :
    {m : ℕ} {sh sh' : Shared} {slots slots' : ℕ → Slot} {pc pc' : ParentPc}
    → ParentMove m sh slots pc sh' slots' pc'
    → Type 0
ParentPremise {sh} (scan e) = sh.pipe ≡ []
ParentPremise {sh} (wait_write {p} {n} {v} e) = sh.domain_write ≡ suc v
ParentPremise {sh} (read_pipe {n} {rest} e) = sh.pipe ≡ n ∷ rest
ParentPremise mv = Unit {0}

pub parent_premise :
    {m : ℕ} {sh sh' : Shared} {slots slots' : ℕ → Slot} {pc pc' : ParentPc}
    (mv : ParentMove m sh slots pc sh' slots' pc')
    → ParentPremise mv
parent_premise (scan e) = e
parent_premise (wait_write e) = e
parent_premise (read_pipe e) = e
parent_premise mv = tt

module _ {m : ℕ} {sh : Shared} {slots : ℕ → Slot} where
  ParentMove-domain_token :
      {sh' : Shared} {slots' : ℕ → Slot} {pc pc' : ParentPc}
      → ParentMove m sh slots pc sh' slots' pc'
      → (a : ℕ) → sh.domain_write + sh.domain_read + a + parent_passing pc ≡ 1
      → sh'.domain_write + sh'.domain_read + a + parent_passing pc' ≡ 1
  ParentMove-domain_token (post_read) a h = ground arith
  ParentMove-domain_token mv a h = ground (arith, parent_premise mv)

  ParentMove-messages :
      {sh' : Shared} {slots' : ℕ → Slot} {pc pc' : ParentPc}
      → ParentMove m sh slots pc sh' slots' pc'
      → (a : ℕ) → length sh.domain ≡ sh.domain_read + a + parent_posting pc
      → length sh'.domain ≡ sh'.domain_read + a + parent_posting pc'
  ParentMove-messages send a h = grind (arith, length-append)
  ParentMove-messages mv a h = ground (arith, parent_premise mv)

  ParentMove-pipe_token :
      {sh' : Shared} {slots' : ℕ → Slot} {pc pc' : ParentPc}
      → ParentMove m sh slots pc sh' slots' pc'
      → (a : ℕ) → sh.pipe_write + a + length sh.pipe + parent_reporting pc ≡ 1
      → sh'.pipe_write + a + length sh'.pipe + parent_reporting pc' ≡ 1
  ParentMove-pipe_token post_pipe a h = ground arith
  ParentMove-pipe_token mv a h = ground (arith, parent_premise mv)

  ParentMove-log :
      {sh' : Shared} {slots' : ℕ → Slot} {pc pc' : ParentPc}
      → ParentMove m sh slots pc sh' slots' pc'
      → sh'.log ≡ sh.log
  ParentMove-log post_pipe = refl
  ParentMove-log mv = refl

  ParentMove-AtSlot :
      {sh' : Shared} {slots' : ℕ → Slot} {pc pc' : ParentPc}
      → ParentMove m sh slots pc sh' slots' pc'
      → AtSlot m slots pc
      → AtSlot m slots' pc'
  ParentMove-AtSlot (ready lt e) h = (lt, e)
  ParentMove-AtSlot (wait_write e) h = h
  ParentMove-AtSlot send h = h
  ParentMove-AtSlot post_read h = h
  ParentMove-AtSlot mv h = tt

  ParentMove-one_slot :
      {sh' : Shared} {slots' : ℕ → Slot} {pc pc' : ParentPc}
      → ParentMove m sh slots pc sh' slots' pc'
      → AtSlot m slots pc
      → (d : ℕ) → sum (is_client d) m slots ≤ 1
      → sum (is_client d) m slots' ≤ 1
  unfolding is_client
  ParentMove-one_slot (accept {p} {n} lt e first nonzero new) h d le =
      ground (arith, sum-set_at (is_client d) m p (on n) slots lt, new)
  ParentMove-one_slot (hang_up {p} {n} lt e) h d le =
      ground (arith, sum-set_at (is_client d) m p free slots lt)
  ParentMove-one_slot (disable {p} {n}) (lt, e) d le =
      ground (arith, sum-set_at (is_client d) m p (off n) slots lt)
  ParentMove-one_slot (enable {n}) h d le = omega (arith, sum-reenabled-is_client n d m slots)
  ParentMove-one_slot mv h d le = le

  -- `x` is what the children hold of the client `d`, or of all.
  ParentMove-client :
      {sh' : Shared} {slots' : ℕ → Slot} {pc pc' : ParentPc}
      → ParentMove m sh slots pc sh' slots' pc'
      → AtSlot m slots pc
      → (d x : ℕ) → sum (is_off_client d) m slots ≤ 1
      → occurrences d sh.domain + x + occurrences d sh.pipe + parent_holds d pc
        ≡ sum (is_off_client d) m slots + parent_sent_client d pc
      → occurrences d sh'.domain + x + occurrences d sh'.pipe + parent_holds d pc'
        ≡ sum (is_off_client d) m slots' + parent_sent_client d pc'
  unfolding occurrences
  ParentMove-client (accept {p} {n} lt e first nonzero new) h d x le c =
      ground (arith, sum-set_at (is_off_client d) m p (on n) slots lt)
  ParentMove-client (hang_up {p} {n} lt e) h d x le c =
      ground (arith, sum-set_at (is_off_client d) m p free slots lt)
  ParentMove-client (disable {p} {n}) (lt, e) d x le c =
      ground (arith, sum-set_at (is_off_client d) m p (off n) slots lt)
  ParentMove-client (enable {n}) h d x le c =
      ground (arith, sum-reenabled-is_off_client n d m slots)
  ParentMove-client send h d x le c = grind (arith, occurrences-append)
  ParentMove-client mv h d x le c = ground (arith, parent_premise mv)

  ParentMove-on_the_way :
      {sh' : Shared} {slots' : ℕ → Slot} {pc pc' : ParentPc}
      → ParentMove m sh slots pc sh' slots' pc'
      → AtSlot m slots pc
      → (x : ℕ) → ((d : ℕ) → parent_holds d pc ≡ 1 → sum (is_off_client d) m slots ≡ 1)
      → length sh.domain + x + length sh.pipe + parent_holding pc
        ≡ sum is_off m slots + parent_sent pc
      → length sh'.domain + x + length sh'.pipe + parent_holding pc'
        ≡ sum is_off m slots' + parent_sent pc'
  ParentMove-on_the_way (accept {p} {n} lt e first nonzero new) h x own c =
      ground (arith, sum-set_at is_off m p (on n) slots lt)
  ParentMove-on_the_way (hang_up {p} {n} lt e) h x own c =
      ground (arith, sum-set_at is_off m p free slots lt)
  ParentMove-on_the_way (disable {p} {n}) (lt, e) x own c =
      ground (arith, sum-set_at is_off m p (off n) slots lt)
  ParentMove-on_the_way (enable {n}) h x own c =
      omega (arith, sum-reenabled-is_off n m slots, own n (ground arith))
  ParentMove-on_the_way send h x own c = grind (arith, length-append)
  ParentMove-on_the_way mv h x own c = ground (arith, parent_premise mv)

pub ParentMove-Inv :
    {k m : ℕ} {s : System} {sh : Shared} {slots : ℕ → Slot} {pc : ParentPc}
    → Inv k m s
    → ParentMove m s.shared s.slots s.parent sh slots pc
    → Inv k m (record { shared = sh; slots = slots; parent = pc; children = s.children })
ParentMove-Inv {m = m} {s = s} inv mv = record {
  domain_token = ParentMove-domain_token mv _ inv.domain_token;
  messages = ParentMove-messages mv _ inv.messages;
  pipe_token = ParentMove-pipe_token mv _ inv.pipe_token;
  log_token = omega (arith, inv.log_token, ParentMove-log mv);
  on_the_way =
      ParentMove-on_the_way mv inv.at_slot _
        (λ d e. ground (arith, at_most d, inv.clients_on_the_way d)) inv.on_the_way;
  clients_on_the_way =
      λ d. ParentMove-client mv inv.at_slot d _ (at_most d) (inv.clients_on_the_way d);
  one_slot = λ d. ParentMove-one_slot mv inv.at_slot d (inv.one_slot d);
  at_slot = ParentMove-AtSlot mv inv.at_slot;
}
  where
    at_most : (d : ℕ) → sum (is_off_client d) m s.slots ≤ 1
    at_most d = omega (arith, inv.one_slot d, sum-is_off_client-le d m s.slots)
