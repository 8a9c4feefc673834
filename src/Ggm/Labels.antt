-- ===== src/Ggm/Labels.antt =====
-- The node labels of ggm_prf/pprf.c: a bit string in a buffer of bytes. The label of a tag, the
-- order of labels, and whether one is a prefix of another.
use Prim.Native.Nat.{Ordering, compare}
use secure_deletion.Common.{
  ℕ, zero, suc, ◌+◌, ◌-◌, ◌/◌, ◌%◌, ◌^◌, Bool, true, false, ◌==◌, if◌then◌else◌, ltb,
}

-- The bytes of `bstr`.
abbrev pub Bstr : Type 0
Bstr = ℕ → ℕ

-- `b & (1 << k)`, of a byte.
abbrev pub bit_of : (b k : ℕ) → Bool
bit_of b k = b / 2 ^ k % 2 == 1

-- `b |= (1 << k)`
abbrev pub with_bit : (b k : ℕ) → ℕ
with_bit b k = if bit_of b k then b else b + 2 ^ k

-- `b &= ((u8)-1) - (1 << k)`
abbrev pub without_bit : (b k : ℕ) → ℕ
without_bit b k = if bit_of b k then b - 2 ^ k else b

unfoldable pub check_bit_is_set : Bstr → (index : ℕ) → Bool
check_bit_is_set buf index = bit_of (buf (index / 8)) (index % 8)

unfoldable pub set_bit_in_buf : Bstr → (index : ℕ) → Bool → Bstr
set_bit_in_buf buf index val i =
    if i == index / 8
    then (if val then with_bit (buf i) (index % 8) else without_bit (buf i) (index % 8))
    else buf i

-- `struct node_label`
pub record NodeLabel : Type 0 where
  pub bstr : Bstr
  pub depth : ℕ

-- `init_node_label_from_long`, its rounds from `idx` on. The test `(1<<idx) & val` shifts an int:
-- from 31 on it is what the compiler makes of the overflow, `wide idx val`.
unfoldable pub label_rounds : (wide : ℕ → ℕ → Bool) (rounds idx : ℕ) → Bstr → (val depth : ℕ) → Bstr
label_rounds wide zero idx b val depth = b
label_rounds wide (suc n) idx b val depth =
    label_rounds wide n (idx + 1)
      (set_bit_in_buf b (depth - 1 - idx) (if ltb idx 31 then bit_of val idx else wide idx val)) val
      depth

-- `b` is what the label held before, which is not initialised.
unfoldable pub init_node_label_from_long :
    (wide : ℕ → ℕ → Bool) → Bstr → (val depth : ℕ) → NodeLabel
unfolding label_rounds
init_node_label_from_long wide b val depth = record {
  bstr = label_rounds wide depth 0 b val depth;
  depth = depth;
}

-- A round of `compare_node_labels`: it returns `b1 - b2` if the bits differ, and else goes on.
abbrev pub compare_round : (b1 b2 : Bool) → Ordering → Ordering
compare_round true true rest = rest
compare_round true false rest = Ordering.gt
compare_round false true rest = Ordering.lt
compare_round false false rest = rest

-- `compare_node_labels`, from bit `i` on with `n` bits left; -1, 0 and 1 are lt, eq and gt.
unfoldable pub compare_from : NodeLabel → NodeLabel → (n i : ℕ) → Ordering
compare_from l1 l2 zero i = compare l1.depth l2.depth
compare_from l1 l2 (suc n) i =
    compare_round (check_bit_is_set l1.bstr i) (check_bit_is_set l2.bstr i)
      (compare_from l1 l2 n (i + 1))

abbrev pub min_depth : NodeLabel → NodeLabel → ℕ
min_depth l1 l2 = if ltb l1.depth l2.depth then l1.depth else l2.depth

unfoldable pub compare_node_labels : NodeLabel → NodeLabel → Ordering
compare_node_labels l1 l2 = compare_from l1 l2 (min_depth l1 l2) 0

-- The results 1, 0 and -1 of `is_prefix`.
pub data PrefixKind : Type 0 where
  strict equal apart : PrefixKind

-- A round of `is_prefix`, and its loop: whether it runs to its end.
abbrev pub same_round : (b1 b2 rest : Bool) → Bool
same_round true true rest = rest
same_round true false rest = false
same_round false true rest = false
same_round false false rest = rest

unfoldable pub same_bits : NodeLabel → NodeLabel → (n i : ℕ) → Bool
same_bits lbl pre zero i = true
same_bits lbl pre (suc n) i =
    same_round (check_bit_is_set lbl.bstr i) (check_bit_is_set pre.bstr i)
      (same_bits lbl pre n (i + 1))

unfoldable pub is_prefix : (lbl pre : NodeLabel) → PrefixKind
is_prefix lbl pre =
    if ltb lbl.depth pre.depth
    then apart
    else if same_bits lbl pre pre.depth 0
    then (if pre.depth == lbl.depth then equal else strict)
    else apart
