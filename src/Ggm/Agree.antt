-- ===== src/Ggm/Agree.antt =====
-- Labels that agree, or differ, at the bits of a buffer.
use secure_deletion.Common.{
  ℕ, zero, suc, ◌+◌, ◌≤◌, ◌<◌, ◌≡◌, refl, arith, Bool, true, false, List, ◌∷◌, ℕ-cases, inl, inr,
}
use secure_deletion.Ggm.Labels.{Bstr, NodeLabel, check_bit_is_set}
use secure_deletion.Ggm.Order.{bits_from, bits, IsPrefix, Before}

-- Two buffers have the same bits from `i` up to before `j`.
abbrev pub Agree : Bstr → Bstr → (i j : ℕ) → Type 0
Agree b c i j = (k : ℕ) → i ≤ k → k < j → check_bit_is_set b k ≡ check_bit_is_set c k

pub Agree-suc :
    (b c : Bstr) (n : ℕ)
    → Agree b c 0 n
    → check_bit_is_set b n ≡ check_bit_is_set c n
    → Agree b c 0 (n + 1)
Agree-suc b c n a e k h h' = elim (ℕ-cases k n) [
  | inl here ↦ rw here e
  | inr before ↦ a k h (omega arith)
]

IsPrefix-cons : (x y : Bool) (l p : List Bool) → x ≡ y → IsPrefix l p → IsPrefix (x ∷ l) (y ∷ p)
IsPrefix-cons true true l p e h = h
IsPrefix-cons true false l p e h = absurd (cc)
IsPrefix-cons false true l p e h = absurd (cc)
IsPrefix-cons false false l p e h = h

IsPrefix-uncons : (x y : Bool) (l p : List Bool) → IsPrefix (x ∷ l) (y ∷ p) → (x ≡ y) × IsPrefix l p
IsPrefix-uncons true true l p h = (refl, h)
IsPrefix-uncons true false l p h = absurd h
IsPrefix-uncons false true l p h = absurd h
IsPrefix-uncons false false l p h = (refl, h)

Before-cons : (x y : Bool) (a b : List Bool) → x ≡ y → Before a b → Before (x ∷ a) (y ∷ b)
Before-cons true true a b e h = h
Before-cons true false a b e h = absurd (cc)
Before-cons false true a b e h = tt
Before-cons false false a b e h = h

Before-head : (x y : Bool) (a b : List Bool) → x ≡ false → y ≡ true → Before (x ∷ a) (y ∷ b)
Before-head true y a b e f = absurd (cc)
Before-head false true a b e f = tt
Before-head false false a b e f = absurd (cc)

module _ (b c : Bstr) where
  IsPrefix-from :
      (n m i : ℕ) → m ≤ n → Agree b c i (i + m) → IsPrefix (bits_from b n i) (bits_from c m i)
  IsPrefix-from n zero i h a = tt
  IsPrefix-from zero (suc m) i h a = absurd (omega arith)
  IsPrefix-from (suc n) (suc m) i h a =
      IsPrefix-cons (check_bit_is_set b i) (check_bit_is_set c i) (bits_from b n (i + 1))
        (bits_from c m (i + 1)) (a i (omega arith) (omega arith))
        (IsPrefix-from n m (i + 1) (omega arith) (λ k l l'. a k (omega arith) (omega arith)))

  IsPrefix-to :
      (n m i : ℕ) → IsPrefix (bits_from b n i) (bits_from c m i) → (m ≤ n) × Agree b c i (i + m)
  IsPrefix-to n zero i h = (omega arith, λ k l l'. absurd (omega arith))
  IsPrefix-to zero (suc m) i h = absurd h
  IsPrefix-to (suc n) (suc m) i h =
      let u =
        IsPrefix-uncons (check_bit_is_set b i) (check_bit_is_set c i) (bits_from b n (i + 1))
          (bits_from c m (i + 1)) h in
      let ih = IsPrefix-to n m (i + 1) u.1 in
      (
        omega (arith, ih.0),
        λ k l l'. elim (ℕ-cases k i) [
          | inl e ↦ rw e (u.0)
          | inr ne ↦ ih.1 k (omega arith) (omega arith)
        ],
      )

  Before-from :
      (n m i at : ℕ)
      → i ≤ at
      → at < i + n
      → at < i + m
      → Agree b c i at
      → check_bit_is_set b at ≡ false
      → check_bit_is_set c at ≡ true
      → Before (bits_from b n i) (bits_from c m i)
  Before-from zero m i at h h' h'' a e f = absurd (omega arith)
  Before-from (suc n) zero i at h h' h'' a e f = absurd (omega arith)
  Before-from (suc n) (suc m) i at h h' h'' a e f = elim (ℕ-cases at i) [
    | inl here ↦
        Before-head (check_bit_is_set b i) (check_bit_is_set c i) (bits_from b n (i + 1))
          (bits_from c m (i + 1)) (rw here at e) (rw here at f)
    | inr later ↦
        Before-cons (check_bit_is_set b i) (check_bit_is_set c i) (bits_from b n (i + 1))
          (bits_from c m (i + 1)) (a i (omega arith) (omega arith))
          (Before-from n m (i + 1) at (omega arith) (omega arith) (omega arith)
            (λ k l l'. a k (omega arith) (omega arith)) e f)
  ]

-- A label is a prefix when its bits are those of the longer label.
pub Agree-IsPrefix :
    (l p : NodeLabel)
    → p.depth ≤ l.depth
    → Agree l.bstr p.bstr 0 p.depth
    → IsPrefix (bits l) (bits p)
Agree-IsPrefix l p h a =
    IsPrefix-from l.bstr p.bstr l.depth p.depth 0 h (λ k u v. a k u (omega arith))

pub IsPrefix-Agree :
    (l p : NodeLabel)
    → IsPrefix (bits l) (bits p)
    → (p.depth ≤ l.depth) × Agree l.bstr p.bstr 0 p.depth
IsPrefix-Agree l p h =
    let r = IsPrefix-to l.bstr p.bstr l.depth p.depth 0 h in (r.0, λ k u v. r.1 k u (omega arith))

-- A label stands before another when it has the 0 at the first bit where they differ.
pub Agree-Before :
    (l p : NodeLabel) (at : ℕ)
    → at < l.depth
    → at < p.depth
    → Agree l.bstr p.bstr 0 at
    → check_bit_is_set l.bstr at ≡ false
    → check_bit_is_set p.bstr at ≡ true
    → Before (bits l) (bits p)
Agree-Before l p at h h' a e f =
    Before-from l.bstr p.bstr l.depth p.depth 0 at (omega arith) (omega arith) (omega arith) a e f
