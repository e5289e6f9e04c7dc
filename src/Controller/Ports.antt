-- ===== src/Controller/Ports.antt =====
-- What `parse_port` of client-controller/src/util.c and client/src/util.c takes for a port.
use scalable_server.Controller.Util.{in_port, parse_port}
use scalable_server.Os.{Yields, strtol, ret, Machine, err, Res, Platform}
use scalable_server.Prelude.{
  refl, true, false, negsuc, arith, ◌<◌, ◌^◌, ltb, length, ◌&&◌, ◌==◌, ◌≡◌, not, none,
  if◌then◌else◌, pos, some, List, Bool, ℕ, ℤ, Option,
}

-- A reference: the whole of a string that is not empty is a number below 2^16. The arguments are what strtol() says of the
-- string, and its length.
pub port_of : ℤ × ℕ × Bool → ℕ → Option ℕ
port_of (pos n, taken, out) size =
    if not (taken == 0) && (taken == size && ltb n (2 ^ 16)) then some n else none
port_of (negsuc n, taken, out) size = none

abbrev pub or_err : {A : Type 0} → Option A → Res A
or_err none = err
or_err (some a) = ret a

module _ (os : Platform) {S : Type 0} where
  -- `parse_port` agrees with a reference that does not look at errno or the limits of a long; so what it returns is below 2^16. The state stays.
  pub parse_port-port_of :
      (buff : List ℕ) (w : Machine S)
      → let parsed = os.answer w.trace (strtol buff) in
        ((parse_port os buff w).0 ≡ or_err (port_of parsed (length buff)))
        × ((parse_port os buff w).1.st ≡ w.st)
        × Yields (λ port. port < 2 ^ 16) (parse_port os buff w).0
  unfolding parse_port in_port port_of
  parse_port-port_of buff w = go (os.answer w.trace (strtol buff)) refl
    where
      go :
          (a : ℤ × ℕ × Bool)
          → os.answer w.trace (strtol buff) ≡ a
          → ((parse_port os buff w).0 ≡ or_err (port_of a (length buff)))
            × ((parse_port os buff w).1.st ≡ w.st)
            × Yields (λ port. port < 2 ^ 16) (parse_port os buff w).0
      go (pos n, taken, false) same = simp same (ground arith, ground arith, ground arith)
      go (pos n, taken, true) same = simp same (ground arith, ground arith, ground arith)
      go (negsuc n, taken, false) same = simp same (ground arith, ground arith, ground arith)
      go (negsuc n, taken, true) same = simp same (ground arith, ground arith, ground arith)
