-- ===== src/Strconv/Digits.antt =====
-- The print of a number of two or more digits, by its last digit.
use native.Mathlib.Nat.{pow-suc}
use neutron_query_relayer.Prelude.{
  ℕ, zero, suc, ◌+◌, ◌*◌, ◌/◌, ◌%◌, ◌^◌, ◌<◌, ◌≡◌, ◌∙◌, sym, refl, false, [], ◌∷◌, ◌++◌, Bytes,
  arith, u64, ◌==◌,
}
use neutron_query_relayer.Strconv.{emit, format_uint}

tenth-lt_pow : (n f : ℕ) → n < 10 ^ suc f → n / 10 < 10 ^ f
tenth-lt_pow n f h = let e = pow-suc 10 f in omega (arith, h, e)

-- one more digit than there are changes nothing
emit-suc : (f n : ℕ) (out : Bytes) → n < 10 ^ suc f → emit (suc (suc f)) n out ≡ emit (suc f) n out
unfolding emit
emit-suc zero n out h = ground (arith, h)
emit-suc (suc f) n out h =
    ground (arith, emit-suc f (n / 10) ((b'0' + n % 10) ∷ out) (tenth-lt_pow n (suc f) h))

emit-append : (f n : ℕ) (out rest : Bytes) → emit f n (out ++ rest) ≡ emit f n out ++ rest
unfolding emit
emit-append zero n out rest = refl
emit-append (suc f) n out rest = ground (arith, emit-append f (n / 10) ((b'0' + n % 10) ∷ out) rest)

emit-snoc :
    (f q d : ℕ) (out : Bytes)
    → 0 < q
    → d < 10
    → emit (suc f) (q * 10 + d) out ≡ emit f q ((b'0' + d) ∷ out)
unfolding emit
emit-snoc f q d out p l =
    let tenth : (q * 10 + d) / 10 ≡ q = omega (arith, p, l) in
    let last : (q * 10 + d) % 10 ≡ d = omega (arith, p, l) in
    let more : (q == 0) ≡ false = ground (arith, p) in rw (tenth, last, more) refl

pub format_uint-snoc :
    (q d : ℕ)
    → 0 < q
    → d < 10
    → q * 10 + d < u64
    → format_uint (q * 10 + d) ≡ format_uint q ++ (b'0' + d) ∷ []
unfolding format_uint
format_uint-snoc q d p l h =
    emit-snoc 19 q d [] p l
    ∙ (sym (emit-suc 18 q ((b'0' + d) ∷ []) (omega (arith, h)))
        ∙ emit-append 20 q [] ((b'0' + d) ∷ []))
