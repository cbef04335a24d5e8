-- ===== src/Strconv/RoundTrip.antt =====
-- A printed uint64 is read back, and the print is one to twenty digits.
use mathlib.Core.List.{cons-ne-nil}
use native.Mathlib.Nat.{pow-suc}
use neutron_query_relayer.Prelude.{
  ℕ, zero, suc, ◌+◌, ◌/◌, ◌%◌, ◌^◌, ◌≤◌, ◌<◌, ◌≡◌, ◌≢◌, refl, [], ◌∷◌, arith, Bytes, length, All,
  u64,
}
use neutron_query_relayer.Errors.{ok}
use neutron_query_relayer.Strconv.{emit, format_uint, scan, parse_uint}

abbrev pub IsDigit : ℕ → Type 0
IsDigit c = (b'0' ≤ c) × (c ≤ b'9')

scan_last : (n : ℕ) (out : Bytes) → n < u64 → scan ((b'0' + n % 10) ∷ out) (n / 10) ≡ scan out n
unfolding scan
scan_last n out h = ground arith

tenth-lt : (n f : ℕ) → n < 10 ^ suc f → n / 10 < 10 ^ f
tenth-lt n f h = let e = pow-suc 10 f in omega (arith, h, e)

scan-emit :
    (f n : ℕ) (out : Bytes) → n < 10 ^ suc f → n < u64 → scan (emit (suc f) n out) 0 ≡ scan out n
unfolding emit
scan-emit zero n out h k = ground (arith, scan_last n out k)
scan-emit (suc f) n out h k =
    let small : n / 10 < 10 ^ suc f = tenth-lt n (suc f) h in
    ground
      (arith, scan_last n out k, scan-emit f (n / 10) ((b'0' + n % 10) ∷ out) small (omega arith))

emit-IsDigit : (f n : ℕ) (out : Bytes) → All IsDigit out → All IsDigit (emit f n out)
unfolding emit
emit-IsDigit zero n out h = h
emit-IsDigit (suc f) n out h =
    ground (arith, emit-IsDigit f (n / 10) ((b'0' + n % 10) ∷ out) (omega arith, h))

pub format_uint-IsDigit : (n : ℕ) → All IsDigit (format_uint n)
unfolding format_uint
format_uint-IsDigit n = emit-IsDigit 20 n [] tt

emit-ne-nil : (f n : ℕ) (out : Bytes) → out ≢ [] → emit f n out ≢ []
unfolding emit
emit-ne-nil zero n out h = h
emit-ne-nil (suc f) n out h =
    ground (arith, emit-ne-nil f (n / 10) ((b'0' + n % 10) ∷ out) (cons-ne-nil _ _))

pub format_uint-ne-nil : (n : ℕ) → format_uint n ≢ []
unfolding format_uint emit
format_uint-ne-nil n =
    ground (arith, emit-ne-nil 19 (n / 10) ((b'0' + n % 10) ∷ []) (cons-ne-nil _ _))

first-IsDigit :
    (s : Bytes) → All IsDigit s → s ≢ [] → (c : ℕ) × (t : Bytes) × (s ≡ c ∷ t) × IsDigit c
first-IsDigit [] h k = absurd (k refl)
first-IsDigit (c ∷ s) h k = (c, s, refl, h.0)

-- Each print has a first byte, and it is a digit.
pub format_uint-first : (n : ℕ) → (c : ℕ) × (t : Bytes) × (format_uint n ≡ c ∷ t) × IsDigit c
format_uint-first n = first-IsDigit (format_uint n) (format_uint-IsDigit n) (format_uint-ne-nil n)

length-emit : (f n : ℕ) (out : Bytes) → length (emit f n out) ≤ f + length out
unfolding emit
length-emit zero n out = omega arith
length-emit (suc f) n out = ground (arith, length-emit f (n / 10) ((b'0' + n % 10) ∷ out))

pub length-format_uint-le : (n : ℕ) → length (format_uint n) ≤ 20
unfolding format_uint
length-format_uint-le n = omega (arith, length-emit 20 n [])

parse_uint-scan : (s : Bytes) → s ≢ [] → parse_uint s ≡ scan s 0
unfolding parse_uint
parse_uint-scan [] h = absurd (h refl)
parse_uint-scan (c ∷ s) h = refl

pub parse_uint-format_uint : (n : ℕ) → n < u64 → parse_uint (format_uint n) ≡ ok n
unfolding format_uint scan
parse_uint-format_uint n h =
    rw (parse_uint-scan _ (format_uint-ne-nil n)) (scan-emit 19 n [] (omega arith) h)

pub format_uint-injective : (n m : ℕ) → n < u64 → m < u64 → format_uint n ≡ format_uint m → n ≡ m
format_uint-injective n m h k e =
    ground (arith, parse_uint-format_uint n h, parse_uint-format_uint m k)
