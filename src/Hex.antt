-- ===== src/Hex.antt =====
-- The hex string in which user space hands the encrypted sector key to the kernel: `hex_encode` of
-- holepunch/holepunch-userland/src/utils.c and `eraser_hex_decode` of
-- holepunch/kernel_module/dm-holepunch-main.c. A heap block is a memory from offsets to bytes, with
-- any contents; `kstrtou8`, of the kernel, is a parameter, which gives none for an error.
pub mod RoundTrip
mod Tests
use secure_deletion.Common.{
  ℕ, zero, suc, ◌+◌, ◌*◌, ◌/◌, ◌%◌, Option, none, some, List, [], ◌∷◌, ◌==◌, if◌then◌else◌, ltb,
  length,
}

abbrev pub Bytes : Type 0
Bytes = ℕ → ℕ

abbrev pub put : Bytes → ℕ → ℕ → Bytes
put m i x j = if i == j then x else m j

-- The characters that `%x` prints for 0 to 15.
abbrev pub hex_digit : ℕ → ℕ
hex_digit d = if ltb d 10 then 48 + d else 87 + d

-- `sprintf(out, "%02x", b)` at an offset, of a byte: two characters and the terminator.
abbrev pub sprintf_02x : Bytes → (at b : ℕ) → Bytes
sprintf_02x out at b =
    put (put (put out at (hex_digit (b / 16))) (at + 1) (hex_digit (b % 16))) (at + 2) 0

-- The loop of `hex_encode` from its round `i` on.
unfoldable pub encode_loop : Bytes → (i : ℕ) → List ℕ → Bytes
encode_loop out i [] = out
encode_loop out i (b ∷ bs) = encode_loop (sprintf_02x out (i * 2) b) (i + 1) bs

-- `out` is what `malloc` gives.
abbrev pub hex_encode : Bytes → List ℕ → Bytes
hex_encode out key = encode_loop out 0 key

-- The characters of a C string, up to its terminator or to a number of them.
unfoldable pub string_at : (most : ℕ) → Bytes → (at : ℕ) → List ℕ
string_at zero m at = []
string_at (suc n) m at = let rest = string_at n m (at + 1) in if m at == 0 then [] else m at ∷ rest

-- `*hex++`, which reads the terminator at the end: the character and the rest.
abbrev pub char_of : List ℕ → ℕ
char_of [] = 0
char_of (c ∷ cs) = c

abbrev pub rest_of : List ℕ → List ℕ
rest_of [] = []
rest_of (c ∷ cs) = cs

-- The byte `s[i]` after a call of `kstrtou8`: an error leaves the 0 of `memset`.
abbrev pub stored : Option ℕ → ℕ
stored none = 0
stored (some b) = b

module _ (kstrtou8 : List ℕ → Option ℕ) where
  -- The rounds of the loop of `eraser_hex_decode`.
  unfoldable pub decode_loop : (rounds : ℕ) → (hex : List ℕ) → List ℕ
  decode_loop zero hex = []
  decode_loop (suc n) hex =
      stored (kstrtou8 (char_of hex ∷ char_of (rest_of hex) ∷ []))
      ∷ decode_loop n (rest_of (rest_of hex))

  abbrev pub eraser_hex_decode : (hex : List ℕ) → List ℕ
  eraser_hex_decode hex = decode_loop (length hex / 2) hex
