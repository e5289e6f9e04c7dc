-- ===== src/Controller/Util.antt =====
-- client-controller/src/util.c; the text of these functions is the same in client/src/util.c.
use scalable_server.Prelude.{
  [], zero, ◌&&◌, drop, not, negsuc, ◌-◌, ◌∷◌, ltb, ◌^◌, if◌then◌else◌, length, ◌==◌, pos, suc,
  List, ℕ, Bool, ℤ,
}
use scalable_server.Os.{
  ok, fail, give_up, write, open_path, socket, strtol, inet_addr, call, no_error, set_errno, pure,
  ◌>>=◌, out_of_rounds, check, non_null, ◌>>◌, SockaddrIn, other_error, M, Platform, Errno,
}

-- ERANGE
abbrev pub out_of_range : Errno
out_of_range = other_error 34

-- `LONG_MIN == sl || LONG_MAX == sl`
abbrev pub is_long_limit : ℤ → Bool
is_long_limit (pos n) = n == 2 ^ 63 - 1
is_long_limit (negsuc n) = n == 2 ^ 63 - 1

module _ (os : Platform) {S : Type 0} where
  -- The loop of `write_fully`, over the bytes that are left.
  unfoldable pub write_loop : ℕ → ℤ → List ℕ → M S (Unit {0})
  write_loop zero fd left = out_of_rounds
  write_loop (suc rounds) fd [] = pure tt
  write_loop (suc rounds) fd (x ∷ xs) =
      call os (write fd (x ∷ xs))
      >>= elim [ fail e ↦ set_errno e >> give_up | ok n ↦ write_loop rounds fd (drop n (x ∷ xs)) ]

  unfoldable pub write_fully : ℤ → List ℕ → M S (Unit {0})
  write_fully fd bytes = write_loop (suc (length bytes)) fd bytes

  unfoldable pub tcp_socket : M S ℕ
  tcp_socket = do check (← call os socket)

  unfoldable pub open_file : List ℕ → M S ℕ
  open_file file_name = do non_null (← call os (open_path file_name))

  unfoldable pub init_addr : List ℕ → ℕ → M S SockaddrIn
  init_addr ip port = do
    addr ← non_null (← call os (inet_addr ip))
    pure (record { sin_port = os.htons port; sin_addr = addr })

  -- INADDR_ANY is 0, so the test against -1 does not succeed.
  unfoldable pub init_addr_any : ℕ → M S SockaddrIn
  init_addr_any port = pure (record { sin_port = os.htons port; sin_addr = 0 })

  -- The tests on the value, once strtol() has taken the whole string.
  unfoldable pub in_port : ℤ → M S ℕ
  in_port (pos n) = if ltb (2 ^ 16 - 1) n then give_up else pure n
  in_port (negsuc n) = give_up

  unfoldable pub parse_port : List ℕ → M S ℕ
  parse_port buff = do
    set_errno no_error
    parsed ← call os (strtol buff)
    if parsed.2 then set_errno out_of_range else pure tt
    if parsed.1 == 0
        then give_up
        else if not (parsed.1 == length buff)
        then give_up
        else if is_long_limit parsed.0 && parsed.2
        then give_up
        else in_port parsed.0
