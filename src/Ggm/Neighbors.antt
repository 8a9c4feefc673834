-- ===== src/Ggm/Neighbors.antt =====
-- The neighbours of a path: the keys that a puncture puts in the place of one.
use secure_deletion.Common.{
  ℕ, zero, suc, ◌+◌, ◌-◌, ◌≤◌, ◌<◌, ◌≡◌, ◌≢◌, refl, arith, Bool, true, false, not, ◌==◌,
  if◌then◌else◌, List, [], ◌∷◌, All, Any, All-imp, ap, sym, ◌∙◌, ◌⊎◌, inl, inr, Bool-cases, ℕ-cases,
}
use secure_deletion.Ggm.{PprfKey, neighbors, walk}
use secure_deletion.Ggm.Labels.{Bstr, NodeLabel, check_bit_is_set, set_bit_in_buf}
use secure_deletion.Ggm.Bits.{check-set}
use secure_deletion.Ggm.Order.{bits, IsPrefix, Before}
use secure_deletion.Ggm.Agree.{Agree, Agree-suc, Agree-IsPrefix, Agree-Before}

-- One of two labels stands before the other: neither is a prefix of the other.
abbrev pub Diverge : NodeLabel → NodeLabel → Type 0
Diverge a b = Before (bits a) (bits b) ⊎ Before (bits b) (bits a)

abbrev pub AreApart : List PprfKey → Type 0
AreApart [] = Unit
AreApart (k ∷ ks) = All (λ j. Diverge k.lbl j.lbl) ks × AreApart ks

-- A label that leaves the path to `lbl` at a bit from `n` up to before `m`, and ends there.
abbrev pub Leaves : (lbl : NodeLabel) (n m : ℕ) → PprfKey → Type 0
Leaves lbl n m k =
    (at : ℕ) × (n ≤ at)
    × (at < m)
    × (k.lbl.depth ≡ at + 1)
    × Agree k.lbl.bstr lbl.bstr 0 at
    × (check_bit_is_set k.lbl.bstr at ≡ not (check_bit_is_set lbl.bstr at))

pub set-Agree : (b : Bstr) (n : ℕ) (v : Bool) → Agree (set_bit_in_buf b n v) b 0 n
set-Agree b n v k h h' = let t : (n == k) ≡ false = ground arith in check-set b n k v ∙ rw t

pub set-check : (b : Bstr) (n : ℕ) (v : Bool) → check_bit_is_set (set_bit_in_buf b n v) n ≡ v
set-check b n v = let t : (n == n) ≡ true = ground arith in check-set b n n v ∙ rw t

-- Two labels that agree up to a bit and differ in it.
pub Diverge-at :
    (a b : NodeLabel) (at : ℕ)
    → at < a.depth
    → at < b.depth
    → Agree a.bstr b.bstr 0 at
    → check_bit_is_set a.bstr at ≡ not (check_bit_is_set b.bstr at)
    → Diverge a b
Diverge-at a b at h h' agree e = elim (Bool-cases (check_bit_is_set b.bstr at)) [
  | inl f ↦ inl (Agree-Before a b at h h' agree (e ∙ ap not f) f)
  | inr f ↦ inr (Agree-Before b a at h' h (λ k u v. sym (agree k u v)) f (e ∙ ap not f))
]

Bool-same : (x y : Bool) → (x ≡ y) ⊎ (x ≡ not y)
Bool-same true true = inl refl
Bool-same true false = inr refl
Bool-same false true = inr refl
Bool-same false false = inl refl

if-swap : (b : Bool) (x y : List ℕ) → (if b then y else x) ≡ (if not b then x else y)
if-swap true x y = refl
if-swap false x y = refl

module _ (prg : List ℕ → List ℕ × List ℕ) (lbl : NodeLabel) where
  pub neighbors-Leaves :
      (r n : ℕ) (key : List ℕ) (m : ℕ)
      → n + r ≤ m
      → All (Leaves lbl n m) (neighbors prg lbl r n key)
  unfolding neighbors
  neighbors-Leaves zero n key m h = tt
  neighbors-Leaves (suc r) n key m h = (
    (
      n,
      omega arith,
      omega arith,
      refl,
      set-Agree lbl.bstr n (not (check_bit_is_set lbl.bstr n)),
      set-check lbl.bstr n (not (check_bit_is_set lbl.bstr n)),
    ),
    All-imp (Leaves lbl (n + 1) m) (Leaves lbl n m) _
        (λ k q. (q.0, omega (arith, q.1), q.2, q.3, q.4, q.5))
        (neighbors-Leaves r (n + 1) _ m (omega arith)),
  )

  pub neighbors-AreApart : (r n : ℕ) (key : List ℕ) → AreApart (neighbors prg lbl r n key)
  unfolding neighbors
  neighbors-AreApart zero n key = tt
  neighbors-AreApart (suc r) n key = (
    All-imp (Leaves lbl (n + 1) (n + 1 + r)) _ _
        (λ k q.
          Diverge-at
            (record {
              bstr = set_bit_in_buf lbl.bstr n (not (check_bit_is_set lbl.bstr n));
              depth = n + 1;
            })
            k.lbl n (omega arith) (omega (arith, q.1, q.3))
            (λ i u v. set-Agree lbl.bstr n _ i u v ∙ sym (q.4 i u (omega (arith, q.1))))
            (set-check lbl.bstr n _ ∙ ap not (sym (q.4 n (omega arith) (omega (arith, q.1))))))
        (neighbors-Leaves r (n + 1) _ (n + 1 + r) (omega arith)),
    neighbors-AreApart r (n + 1) _,
  )

  -- The value at another label, from the key above that the path and the label share.
  pub neighbors-walk :
      (other : NodeLabel) (pprf_depth : ℕ)
      → other.depth ≡ pprf_depth
      → (r n : ℕ) (key v : List ℕ) (at : ℕ) → pprf_depth ≡ n + r
      → n ≤ at
      → at < n + r
      → Agree other.bstr lbl.bstr 0 n
      → check_bit_is_set other.bstr at ≢ check_bit_is_set lbl.bstr at
      → walk prg other r n key ≡ v
      → Any
          (λ k.
            IsPrefix (bits other) (bits k.lbl)
            × (walk prg other (pprf_depth - k.lbl.depth) k.lbl.depth k.key ≡ v))
          (neighbors prg lbl r n key)
  unfolding neighbors walk
  neighbors-walk other pprf_depth full zero n key v at d h h' agree ne w = absurd (omega arith)
  neighbors-walk other pprf_depth full (suc r) n key v at d h h' agree ne w =
      let set = check_bit_is_set lbl.bstr n in
      let tmp = prg key in
      elim (Bool-same (check_bit_is_set other.bstr n) set) [
        | inl same ↦
            let later : n + 1 ≤ at = elim (ℕ-cases at n) [
              | inl e ↦ absurd (ne (rw e same))
              | inr apart ↦ omega arith
            ] in
            inr (
              neighbors-walk other pprf_depth full r (n + 1) (if set then tmp.0 else tmp.1) v at
                (omega arith) later (omega arith) (Agree-suc other.bstr lbl.bstr n agree same) ne
                (ap (λ b. walk prg other r (n + 1) (if b then tmp.0 else tmp.1)) (sym same) ∙ w))
        | inr differ ↦
            let rounds : pprf_depth - (n + 1) ≡ r = omega arith in
            inl (
              Agree-IsPrefix other
                  (record { bstr = set_bit_in_buf lbl.bstr n (not set); depth = n + 1 })
                  (omega arith)
                  (Agree-suc other.bstr (set_bit_in_buf lbl.bstr n (not set)) n
                    (λ k u u'. agree k u u' ∙ sym (set-Agree lbl.bstr n (not set) k u u'))
                    (differ ∙ sym (set-check lbl.bstr n (not set)))),
              ap (λ q. walk prg other q (n + 1) (if set then tmp.1 else tmp.0)) rounds
                  ∙ ap (walk prg other r (n + 1)) (if-swap set tmp.0 tmp.1)
                  ∙ ap (λ b. walk prg other r (n + 1) (if b then tmp.0 else tmp.1)) (sym differ)
                  ∙ w,
            )
      ]
