-- ===== src/Strconv.antt =====
-- strconv.FormatUint(num, 10) and strconv.ParseUint(s, 10, 64), of which internal/storage,
-- internal/subscriber and internal/relay make use.
pub mod Digits
pub mod RoundTrip
pub mod Signed
use neutron_query_relayer.Prelude.{
  ℕ, zero, suc, ◌+◌, ◌-◌, ◌*◌, ◌/◌, ◌%◌, ◌≡◌, refl, Bool, ◌&&◌, List, [], ◌∷◌, Bytes, codes, ltb,
  leb, ◌==◌, if◌then◌else◌, u64,
}
use neutron_query_relayer.Errors.{Result, ok, err, plain}

-- The digits of `n` in front of `out`, at most `fuel` of them; 20 hold every uint64.
emit : ℕ → ℕ → Bytes → Bytes
emit zero n out = out
emit (suc fuel) n out =
    let last = (b'0' + n % 10) ∷ out in
    let rest = emit fuel (n / 10) last in if n / 10 == 0 then last else rest

unfoldable pub format_uint : ℕ → Bytes
unfolding emit
format_uint n = emit 20 n []

abbrev pub is_digit : ℕ → Bool
is_digit c = leb b'0' c && leb c b'9'

-- The loop of ParseUint: `cutoff` is the smallest number whose tenfold overflows.
scan : Bytes → ℕ → Result ℕ
scan [] n = ok n
scan (c ∷ s) n =
    let n1 = (n * 10 + (c - b'0')) % u64 in
    if is_digit c
    then (if leb ((u64 - 1) / 10 + 1) n
        then err (plain (codes "value out of range"))
        else if ltb n1 (n * 10)
        then err (plain (codes "value out of range"))
        else scan s n1)
    else err (plain (codes "invalid syntax"))

unfoldable pub parse_uint : Bytes → Result ℕ
unfolding scan
parse_uint [] = err (plain (codes "invalid syntax"))
parse_uint (c ∷ s) = scan (c ∷ s) 0

format_zero : format_uint 0 ≡ codes "0"
unfolding format_uint
format_zero = refl

format_max : format_uint (u64 - 1) ≡ codes "18446744073709551615"
unfolding format_uint
format_max = refl

parse_max : parse_uint (codes "18446744073709551615") ≡ ok 18446744073709551615
unfolding parse_uint
parse_max = refl

parse_over : parse_uint (codes "18446744073709551616") ≡ err (plain (codes "value out of range"))
unfolding parse_uint
parse_over = refl

parse_sign : parse_uint (codes "+1") ≡ err (plain (codes "invalid syntax"))
unfolding parse_uint
parse_sign = refl
