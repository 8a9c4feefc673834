-- ===== src/Hex/Tests.antt =====
-- A key of two bytes, through the hex string.
use secure_deletion.Common.{
  ℕ, ◌+◌, ◌-◌, ◌*◌, ◌<◌, ◌≡◌, refl, arith, Option, none, some, List, [], ◌∷◌, if◌then◌else◌, ltb,
}
use secure_deletion.Hex.{
  Bytes, hex_digit, hex_encode, encode_loop, string_at, decode_loop, eraser_hex_decode,
}
use secure_deletion.Hex.RoundTrip.{decode-hex_encode}

-- The value of a lower case hex digit, and a parser of two.
abbrev value : ℕ → ℕ
value c = if ltb c 97 then c - 48 else c - 87

abbrev parse : List ℕ → Option ℕ
parse (a ∷ b ∷ []) = some (value a * 16 + value b)
parse s = none

value-hex_digit : (d : ℕ) → d < 16 → value (hex_digit d) ≡ d
value-hex_digit d h = ground arith

parse-digits :
    (a b : ℕ) → a < 16 → b < 16 → parse (hex_digit a ∷ hex_digit b ∷ []) ≡ some (a * 16 + b)
parse-digits a b h k = rw (value-hex_digit a h, value-hex_digit b k)

-- A block that is full of ones.
abbrev block : Bytes
block j = 255

-- "00a7"
encoded : string_at 5 (hex_encode block (0 ∷ 167 ∷ [])) 0 ≡ 48 ∷ 48 ∷ 97 ∷ 55 ∷ []
unfolding string_at encode_loop
encoded = refl

decoded : eraser_hex_decode parse (48 ∷ 48 ∷ 97 ∷ 55 ∷ []) ≡ 0 ∷ 167 ∷ []
unfolding decode_loop
decoded = refl

-- A string of an odd length loses its last character, and an error of `kstrtou8` leaves a zero.
decoded_odd : eraser_hex_decode (λ s. none) (48 ∷ 48 ∷ 97 ∷ []) ≡ 0 ∷ []
unfolding decode_loop
decoded_odd = refl

decode-hex_encode_example :
    eraser_hex_decode parse (string_at 5 (hex_encode block (0 ∷ 167 ∷ [])) 0) ≡ 0 ∷ 167 ∷ []
decode-hex_encode_example =
    decode-hex_encode parse parse-digits block 0 (167 ∷ []) (omega arith, (omega arith, tt))
