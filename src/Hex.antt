-- ===== src/Hex.antt =====
-- encoding/hex: EncodeToString and DecodeString, by which hashes become texts and back.
use neutron_query_relayer.Prelude.{
  ℕ, ◌+◌, ◌-◌, ◌*◌, ◌/◌, ◌%◌, ◌<◌, ◌≡◌, refl, ◌&&◌, [], ◌∷◌, Bytes, codes, ltb, leb, if◌then◌else◌,
  arith, length, All,
}
use neutron_query_relayer.Errors.{Result, ok, err, plain, ◌>>=◌}

hex_digit : ℕ → ℕ
hex_digit n = if ltb n 10 then b'0' + n else b'a' + (n - 10)

unfoldable pub encode_to_string : Bytes → Bytes
unfolding hex_digit
encode_to_string [] = []
encode_to_string (b ∷ bs) = hex_digit (b / 16) ∷ hex_digit (b % 16) ∷ encode_to_string bs

hex_value : ℕ → Result ℕ
hex_value c =
    if leb b'0' c && leb c b'9'
    then ok (c - b'0')
    else if leb b'a' c && leb c b'f'
    then ok (c - b'a' + 10)
    else if leb b'A' c && leb c b'F'
    then ok (c - b'A' + 10)
    else err (plain (codes "encoding/hex: invalid byte"))

unfoldable pub decode_string : Bytes → Result Bytes
unfolding hex_value
decode_string [] = ok []
decode_string (a ∷ []) = err (plain (codes "encoding/hex: odd length hex string"))
decode_string (a ∷ b ∷ s) = do
  hi ← hex_value a
  lo ← hex_value b
  rest ← decode_string s
  ok ((hi * 16 + lo) ∷ rest)

hex_value-hex_digit : (n : ℕ) → n < 16 → hex_value (hex_digit n) ≡ ok n
unfolding hex_value hex_digit
hex_value-hex_digit n h = ground arith

-- Bytes that were written in hex are read back.
pub decode_string-encode_to_string :
    (s : Bytes) → All (λ b. b < 256) s → decode_string (encode_to_string s) ≡ ok s
unfolding decode_string encode_to_string
decode_string-encode_to_string [] h = refl
decode_string-encode_to_string (b ∷ s) h =
    rw
      (
        hex_value-hex_digit (b / 16) (omega arith),
        hex_value-hex_digit (b % 16) (omega arith),
        decode_string-encode_to_string s h.1,
      )
      (ground arith)

pub length-encode_to_string : (s : Bytes) → length (encode_to_string s) ≡ 2 * length s
unfolding encode_to_string
length-encode_to_string [] = omega arith
length-encode_to_string (b ∷ s) = omega (arith, length-encode_to_string s)
