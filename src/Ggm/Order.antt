-- ===== src/Ggm/Order.antt =====
-- Node labels as lists of bits: their order and their prefixes.
use Prim.Native.Nat.{Ordering}
use secure_deletion.Common.{
  ℕ, zero, suc, ◌+◌, ◌≡◌, refl, arith, Bool, true, false, ◌==◌, if◌then◌else◌, ltb, List, [], ◌∷◌,
  ap, sym, ◌∙◌, inl, inr, ◌⊎◌, ◌≢◌,
}
use secure_deletion.Ggm.Labels.{
  Bstr, NodeLabel, PrefixKind, strict, equal, apart, check_bit_is_set, compare_round, same_round,
  compare_from, compare_node_labels, same_bits, is_prefix,
}

abbrev pub bits_from : Bstr → (n i : ℕ) → List Bool
bits_from b zero i = []
bits_from b (suc n) i = check_bit_is_set b i ∷ bits_from b n (i + 1)

-- The bit string of a label.
abbrev pub bits : NodeLabel → List Bool
bits l = bits_from l.bstr l.depth 0

-- The lexicographic order, a prefix first.
abbrev pub lex : List Bool → List Bool → Ordering
lex [] [] = Ordering.eq
lex [] (y ∷ b) = Ordering.lt
lex (x ∷ a) [] = Ordering.gt
lex (true ∷ a) (true ∷ b) = lex a b
lex (true ∷ a) (false ∷ b) = Ordering.gt
lex (false ∷ a) (true ∷ b) = Ordering.lt
lex (false ∷ a) (false ∷ b) = lex a b

abbrev pub prefix_kind : (l pre : List Bool) → PrefixKind
prefix_kind [] [] = equal
prefix_kind (x ∷ l) [] = strict
prefix_kind [] (y ∷ p) = apart
prefix_kind (true ∷ l) (true ∷ p) = prefix_kind l p
prefix_kind (true ∷ l) (false ∷ p) = apart
prefix_kind (false ∷ l) (true ∷ p) = apart
prefix_kind (false ∷ l) (false ∷ p) = prefix_kind l p

abbrev pub IsPrefix : (l pre : List Bool) → Type 0
IsPrefix l [] = Unit
IsPrefix [] (y ∷ p) = ⊥
IsPrefix (true ∷ l) (true ∷ p) = IsPrefix l p
IsPrefix (true ∷ l) (false ∷ p) = ⊥
IsPrefix (false ∷ l) (true ∷ p) = ⊥
IsPrefix (false ∷ l) (false ∷ p) = IsPrefix l p

-- At the first bit where the strings differ, and they do, the first has a 0.
abbrev pub Before : List Bool → List Bool → Type 0
Before [] b = ⊥
Before (x ∷ a) [] = ⊥
Before (true ∷ a) (true ∷ b) = Before a b
Before (true ∷ a) (false ∷ b) = ⊥
Before (false ∷ a) (true ∷ b) = Unit
Before (false ∷ a) (false ∷ b) = Before a b

abbrev pub lesser : ℕ → ℕ → ℕ
lesser zero m = 0
lesser (suc n) zero = 0
lesser (suc n) (suc m) = suc (lesser n m)

lesser-if : (n m : ℕ) → lesser n m ≡ (if ltb n m then n else m)
lesser-if zero m = ground arith
lesser-if (suc n) zero = ground arith
lesser-if (suc n) (suc m) = ground (arith, lesser-if n m)

compare_round-lex :
    (x y : Bool) (a b : List Bool) → compare_round x y (lex a b) ≡ lex (x ∷ a) (y ∷ b)
compare_round-lex true true a b = refl
compare_round-lex true false a b = refl
compare_round-lex false true a b = refl
compare_round-lex false false a b = refl

module _ (l1 l2 : NodeLabel) where
  compare_from-lex :
      (n m i : ℕ)
      → l1.depth ≡ i + n
      → l2.depth ≡ i + m
      → compare_from l1 l2 (lesser n m) i ≡ lex (bits_from l1.bstr n i) (bits_from l2.bstr m i)
  unfolding compare_from
  compare_from-lex zero zero i e f = ground arith
  compare_from-lex zero (suc m) i e f = ground arith
  compare_from-lex (suc n) zero i e f = ground arith
  compare_from-lex (suc n) (suc m) i e f =
      let b1 : Bool = check_bit_is_set l1.bstr i in
      let b2 : Bool = check_bit_is_set l2.bstr i in
      ap (compare_round b1 b2) (compare_from-lex n m (i + 1) (omega arith) (omega arith))
      ∙ compare_round-lex b1 b2 (bits_from l1.bstr n (i + 1)) (bits_from l2.bstr m (i + 1))

  pub compare-lex : compare_node_labels l1 l2 ≡ lex (bits l1) (bits l2)
  unfolding compare_node_labels
  compare-lex =
      ap (λ n. compare_from l1 l2 n 0) (sym (lesser-if l1.depth l2.depth))
      ∙ compare_from-lex l1.depth l2.depth 0 (omega arith) (omega arith)

  -- `is_prefix`, from what its loop says.
  abbrev kind_of : (same : Bool) → PrefixKind
  kind_of same =
      if ltb l1.depth l2.depth
      then apart
      else if same
      then (if l2.depth == l1.depth then equal else strict)
      else apart

  kind_of-round :
      (x y same : Bool) (l p : List Bool)
      → kind_of same ≡ prefix_kind l p
      → kind_of (same_round x y same) ≡ prefix_kind (x ∷ l) (y ∷ p)
  kind_of-round true true same l p e = e
  kind_of-round true false same l p e = ground arith
  kind_of-round false true same l p e = ground arith
  kind_of-round false false same l p e = e

  kind_of-bits :
      (m n i : ℕ)
      → l1.depth ≡ i + m
      → l2.depth ≡ i + n
      → kind_of (same_bits l1 l2 n i) ≡ prefix_kind (bits_from l1.bstr m i) (bits_from l2.bstr n i)
  unfolding same_bits
  kind_of-bits zero zero i e f = ground arith
  kind_of-bits zero (suc n) i e f = ground arith
  kind_of-bits (suc m) zero i e f = ground arith
  kind_of-bits (suc m) (suc n) i e f =
      kind_of-round (check_bit_is_set l1.bstr i) (check_bit_is_set l2.bstr i)
        (same_bits l1 l2 n (i + 1)) (bits_from l1.bstr m (i + 1)) (bits_from l2.bstr n (i + 1))
        (kind_of-bits m n (i + 1) (omega arith) (omega arith))

  pub is_prefix-kind : is_prefix l1 l2 ≡ prefix_kind (bits l1) (bits l2)
  unfolding is_prefix
  is_prefix-kind = kind_of-bits l1.depth l2.depth 0 (omega arith) (omega arith)

-- The kinds, read back.
pub prefix_kind-cases :
    (l p : List Bool)
    → (IsPrefix l p × (prefix_kind l p ≢ apart)) ⊎ ((IsPrefix l p → ⊥) × (prefix_kind l p ≡ apart))
prefix_kind-cases [] [] = inl (tt, λ e. cc)
prefix_kind-cases (x ∷ l) [] = inl (tt, λ e. cc)
prefix_kind-cases [] (y ∷ p) = inr ((λ h. h), refl)
prefix_kind-cases (true ∷ l) (true ∷ p) = prefix_kind-cases l p
prefix_kind-cases (true ∷ l) (false ∷ p) = inr ((λ h. h), refl)
prefix_kind-cases (false ∷ l) (true ∷ p) = inr ((λ h. h), refl)
prefix_kind-cases (false ∷ l) (false ∷ p) = prefix_kind-cases l p
