-- ===== src/Strconv/Signed.antt =====
-- strconv.Atoi on a 64-bit machine, and the conversion of its result to a uint64, which
-- cmd/neutron_query_relayer/cmd/exec.go makes.
use neutron_query_relayer.Prelude.{
  ℕ, zero, suc, ◌+◌, ◌-◌, ◌%◌, ◌^◌, ◌≤◌, ◌<◌, ◌≡◌, refl, Bool, true, false, [], ◌∷◌, Bytes, codes,
  ltb, leb, ◌==◌, if◌then◌else◌, u64, arith,
}
use neutron_query_relayer.Errors.{Result, ok, err, plain, ◌>>=◌}
use neutron_query_relayer.Strconv.{parse_uint, format_uint}
use neutron_query_relayer.Strconv.RoundTrip.{IsDigit, format_uint-first, parse_uint-format_uint}

-- `negsuc n` is -(n + 1).
pub data ℤ : Type 0 where
  pos : ℕ → ℤ
  negsuc : ℕ → ℤ

-- 2 ^ 63, the first number that is no int64
abbrev pub int_cutoff : ℕ
int_cutoff = 2 ^ 63

out_of_range : Result ℤ
out_of_range = err (plain (codes "value out of range"))

signed : Bool → ℕ → Result ℤ
unfolding out_of_range
signed false un = if leb int_cutoff un then out_of_range else ok (pos un)
signed true zero = ok (pos 0)
signed true (suc n) = if ltb int_cutoff (suc n) then out_of_range else ok (negsuc n)

after_sign : Bool → Bytes → Result ℤ
unfolding signed
after_sign neg s = parse_uint s >>= signed neg

unfoldable pub atoi : Bytes → Result ℤ
unfolding after_sign
atoi [] = err (plain (codes "invalid syntax"))
atoi (c ∷ s) =
    if c == b'-'
    then after_sign true s
    else if c == b'+'
    then after_sign false s
    else after_sign false (c ∷ s)

-- uint64(n) of an int64
unfoldable pub to_uint64 : ℤ → ℕ
to_uint64 (pos n) = n % u64
to_uint64 (negsuc n) = (u64 - (n + 1)) % u64

-- the print of an int
pub format_int : ℤ → Bytes
format_int (pos n) = format_uint n
format_int (negsuc n) = b'-' ∷ format_uint (n + 1)

after_sign-digit : (c : ℕ) (t : Bytes) → IsDigit c → atoi (c ∷ t) ≡ after_sign false (c ∷ t)
unfolding atoi
after_sign-digit c t h = ground arith

module _ (n : ℕ) (h : n < u64) where
  atoi-format_uint : atoi (format_uint n) ≡ signed false n
  unfolding after_sign
  atoi-format_uint =
      let (c, t, e, d) = format_uint-first n in
      rw e (rw (after_sign-digit c t d) (rw (← e) (rw (parse_uint-format_uint n h) refl)))

  -- An int64 that is not negative is read from its print.
  pub atoi-format_uint_pos : n < int_cutoff → atoi (format_uint n) ≡ ok (pos n)
  unfolding signed
  atoi-format_uint_pos k = rw atoi-format_uint (ground arith)

  -- Greater numbers are refused.
  pub atoi-format_uint_over :
      int_cutoff ≤ n → atoi (format_uint n) ≡ err (plain (codes "value out of range"))
  unfolding signed out_of_range
  atoi-format_uint_over k = rw atoi-format_uint (ground arith)

signed-negative : (n : ℕ) → 0 < n → n ≤ int_cutoff → signed true n ≡ ok (negsuc (n - 1))
unfolding signed
signed-negative zero p h = absurd (omega (arith, p))
signed-negative (suc n) p h = ground arith

-- A negative int64 is read from a minus sign and the print of its absolute value.
pub atoi-minus :
    (n : ℕ) → 0 < n → n ≤ int_cutoff → atoi (b'-' ∷ format_uint n) ≡ ok (negsuc (n - 1))
unfolding atoi after_sign
atoi-minus n p h = rw (parse_uint-format_uint n (omega arith)) (signed-negative n p h)
