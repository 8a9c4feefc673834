-- ===== src/Hex/RoundTrip.antt =====
-- What the kernel decodes is the key that user space has encoded.
use secure_deletion.Common.{
  ℕ, suc, ◌+◌, ◌*◌, ◌/◌, ◌%◌, ◌≤◌, ◌<◌, ◌≡◌, refl, arith, Option, some, List, [], ◌∷◌, ◌==◌, length,
  ap, ◌∙◌, false,
}
use secure_deletion.Hex.{
  Bytes, hex_digit, sprintf_02x, encode_loop, hex_encode, string_at, decode_loop, eraser_hex_decode,
}

abbrev pub AreBytes : List ℕ → Type 0
AreBytes [] = Unit
AreBytes (b ∷ bs) = (b < 256) × AreBytes bs

-- The characters of some bytes.
abbrev digits : List ℕ → List ℕ
digits [] = []
digits (b ∷ bs) = hex_digit (b / 16) ∷ hex_digit (b % 16) ∷ digits bs

length-digits : (bs : List ℕ) → length (digits bs) ≡ 2 * length bs
length-digits [] = omega arith
length-digits (b ∷ bs) = omega (arith, length-digits bs)

digit-ne_zero : (d : ℕ) → (hex_digit d == 0) ≡ false
digit-ne_zero d = ground arith

-- The loop leaves what it has written before, but the last terminator.
encode_loop-below :
    (out : Bytes) (i : ℕ) (bs : List ℕ) (j : ℕ) → j < i * 2 → encode_loop out i bs j ≡ out j
unfolding encode_loop
encode_loop-below out i [] j h = refl
encode_loop-below out i (b ∷ bs) j h =
    encode_loop-below (sprintf_02x out (i * 2) b) (i + 1) bs j (omega arith) ∙ ground arith

string_at-char :
    (n : ℕ) (m : Bytes) (at c : ℕ)
    → m at ≡ c
    → (c == 0) ≡ false
    → string_at (suc n) m at ≡ c ∷ string_at n m (at + 1)
unfolding string_at
string_at-char n m at c e ne = rw (e, ne)

string_at-end : (n : ℕ) (m : Bytes) (at : ℕ) → m at ≡ 0 → string_at (suc n) m at ≡ []
unfolding string_at
string_at-end n m at e = rw e

string_at-encode :
    (out : Bytes) (i : ℕ) (bs : List ℕ)
    → (bs ≡ [] → out (i * 2) ≡ 0)
    → string_at (suc (length (digits bs))) (encode_loop out i bs) (i * 2) ≡ digits bs
unfolding encode_loop
string_at-encode out i [] e = string_at-end 0 out (i * 2) (e refl)
string_at-encode out i (b ∷ bs) e =
    let next : Bytes = sprintf_02x out (i * 2) b in
    let m : Bytes = encode_loop next (i + 1) bs in
    let n : ℕ = length (digits bs) in
    let high : m (i * 2) ≡ hex_digit (b / 16) =
      encode_loop-below next (i + 1) bs (i * 2) (omega arith) ∙ ground arith in
    let low : m (i * 2 + 1) ≡ hex_digit (b % 16) =
      encode_loop-below next (i + 1) bs (i * 2 + 1) (omega arith) ∙ ground arith in
    let step : i * 2 + 1 + 1 ≡ (i + 1) * 2 = omega arith in
    let after : next ((i + 1) * 2) ≡ 0 = ground arith in
    string_at-char (suc (suc n)) m (i * 2) (hex_digit (b / 16)) high (digit-ne_zero (b / 16))
    ∙ ap (λ s. hex_digit (b / 16) ∷ s)
        (string_at-char (suc n) m (i * 2 + 1) (hex_digit (b % 16)) low (digit-ne_zero (b % 16))
          ∙ ap (λ k. hex_digit (b % 16) ∷ string_at (suc n) m k) step
          ∙ ap (λ s. hex_digit (b % 16) ∷ s) (string_at-encode next (i + 1) bs (λ w. after)))

-- From round i on, the loop of `hex_encode` writes nothing at or past (i + the bytes left) * 2 + 1:
-- from round 0 that is the end of the block it allocates.
encode_loop-past :
    (out : Bytes) (i : ℕ) (bs : List ℕ) (j : ℕ)
    → (i + length bs) * 2 + 1 ≤ j
    → encode_loop out i bs j ≡ out j
unfolding encode_loop
encode_loop-past out i [] j h = refl
encode_loop-past out i (b ∷ bs) j h =
    encode_loop-past (sprintf_02x out (i * 2) b) (i + 1) bs j (omega arith) ∙ ground arith

-- The string of an encoded key that is not empty, read in the block of `hex_encode`.
string_at-hex_encode :
    (out : Bytes) (b : ℕ) (bs : List ℕ)
    → string_at (length (b ∷ bs) * 2 + 1) (hex_encode out (b ∷ bs)) 0 ≡ digits (b ∷ bs)
string_at-hex_encode out b bs =
    let most : length (b ∷ bs) * 2 + 1 ≡ suc (length (digits (b ∷ bs))) =
      omega (arith, length-digits (b ∷ bs)) in
    ap (λ n. string_at n (hex_encode out (b ∷ bs)) 0) most
    ∙ string_at-encode out 0 (b ∷ bs) (λ w. cc)

module _ (kstrtou8 : List ℕ → Option ℕ)
    (parses : (a b : ℕ)
      → a < 16
      → b < 16
      → kstrtou8 (hex_digit a ∷ hex_digit b ∷ []) ≡ some (a * 16 + b)) where
  decode_loop-digits :
      (bs : List ℕ) → AreBytes bs → decode_loop kstrtou8 (length bs) (digits bs) ≡ bs
  unfolding decode_loop
  decode_loop-digits [] h = refl
  decode_loop-digits (b ∷ bs) (h, hs) =
      let p = parses (b / 16) (b % 16) (omega arith) (omega arith) in
      let whole : b / 16 * 16 + b % 16 ≡ b = omega arith in rw (p, whole, decode_loop-digits bs hs)

  -- For every key of at least one byte and whatever the allocated block held, when `kstrtou8` reads
  -- two hex digits as their value, `eraser_hex_decode` of the string that `hex_encode` leaves in
  -- its block of 2 * len + 1 bytes is the key.
  pub decode-hex_encode :
      (out : Bytes) (b : ℕ) (bs : List ℕ)
      → AreBytes (b ∷ bs)
      → eraser_hex_decode kstrtou8 (string_at (length (b ∷ bs) * 2 + 1) (hex_encode out (b ∷ bs)) 0)
        ≡ b ∷ bs
  decode-hex_encode out b bs h =
      let rounds : length (digits (b ∷ bs)) / 2 ≡ length (b ∷ bs) =
        omega (arith, length-digits (b ∷ bs)) in
      ap (eraser_hex_decode kstrtou8) (string_at-hex_encode out b bs)
      ∙ ap (λ n. decode_loop kstrtou8 n (digits (b ∷ bs))) rounds
      ∙ decode_loop-digits (b ∷ bs) h
