-- ===== src/Ggm/Rank.antt =====
-- Sorted arrays of keys, and how many keys at the front are not above a label.
use Prim.Native.Nat.{Ordering}
use secure_deletion.Common.{
  ℕ, suc, ◌+◌, ◌≤◌, ◌≡◌, ◌≢◌, refl, arith, some, Bool, true, not, false, if◌then◌else◌, List, [],
  ◌∷◌, length, All, ap, ◌∙◌, ◌⊎◌, inl, inr,
}
use secure_deletion.Ggm.{PprfKey, at_least_zero, not_below, linear_round, linear_from, not_below}
use secure_deletion.Ggm.Labels.{NodeLabel, apart, is_prefix}
use secure_deletion.Ggm.Order.{bits, lex, IsPrefix, Before, is_prefix-kind, prefix_kind-cases}
use secure_deletion.Ggm.Prefixes.{
  lex-prefix, Before-lex_gt, Before-lex, Before-prefix_left, Before-prefix_right,
}

-- Each label differs from every later one in some bit, and has the 0 there: the labels are sorted
-- and none is a prefix of another.
abbrev pub IsOrdered : List PprfKey → Type 0
IsOrdered [] = Unit
IsOrdered (k ∷ ks) = All (λ j. Before (bits k.lbl) (bits j.lbl)) ks × IsOrdered ks

-- `lbl` is below the first label, if there is one.
abbrev pub below_first : NodeLabel → List PprfKey → Bool
below_first lbl [] = true
below_first lbl (k ∷ ks) = not (not_below lbl (some k))

pub Ordering-cases : (o : Ordering) → (o ≡ Ordering.lt) ⊎ (o ≢ Ordering.lt)
Ordering-cases Ordering.lt = inl refl
Ordering-cases Ordering.eq = inr (λ e. cc)
Ordering-cases Ordering.gt = inr (λ e. cc)

pub at_least-ne : (o : Ordering) → o ≢ Ordering.lt → at_least_zero o ≡ true
at_least-ne Ordering.lt ne = absurd (ne refl)
at_least-ne Ordering.eq ne = refl
at_least-ne Ordering.gt ne = refl

module _ (lbl : NodeLabel) where
  abbrev pub NotPrefix : PprfKey → Type 0
  NotPrefix k = IsPrefix (bits lbl) (bits k.lbl) → ⊥

  -- How many keys at the front are not above `lbl`.
  abbrev pub rank : List PprfKey → ℕ
  rank [] = 0
  rank (k ∷ ks) = if at_least_zero (lex (bits lbl) (bits k.lbl)) then suc (rank ks) else 0

  pub rank-below :
      (k : PprfKey) (ks : List PprfKey)
      → lex (bits lbl) (bits k.lbl) ≡ Ordering.lt
      → rank (k ∷ ks) ≡ 0
  rank-below k ks e = rw e

  pub rank-above :
      (k : PprfKey) (ks : List PprfKey)
      → lex (bits lbl) (bits k.lbl) ≢ Ordering.lt
      → rank (k ∷ ks) ≡ suc (rank ks)
  rank-above k ks ne = rw (at_least-ne (lex (bits lbl) (bits k.lbl)) ne)

  pub rank-le : (ks : List PprfKey) → rank ks ≤ length ks
  rank-le [] = omega arith
  rank-le (k ∷ ks) = ground (arith, rank-le ks)

  pub is_prefix-apart : (k : PprfKey) → NotPrefix k → is_prefix lbl k.lbl ≡ apart
  is_prefix-apart k differs = elim (prefix_kind-cases (bits lbl) (bits k.lbl)) [
    | inl h ↦ absurd (differs h.0)
    | inr h ↦ is_prefix-kind lbl k.lbl ∙ h.1
  ]

  pub linear-none :
      (ks : List PprfKey) (i : ℕ)
      → All NotPrefix ks
      → linear_from lbl i ks ≡ record { exact = false; index = i + length ks }
  unfolding linear_from
  linear-none [] i all = ap (λ n. record { exact = false; index = n }) (omega arith)
  linear-none (k ∷ ks) i (one, all) =
      ap (λ kind. linear_round i kind (linear_from lbl (i + 1) ks)) (is_prefix-apart k one)
      ∙ linear-none ks (i + 1) all
      ∙ ap (λ n. record { exact = false; index = n }) (omega arith)

  -- Nothing above `lbl` is a prefix of it.
  pub after-NotPrefix :
      (k : PprfKey) (ks : List PprfKey)
      → lex (bits lbl) (bits k.lbl) ≡ Ordering.lt
      → All (λ j. Before (bits k.lbl) (bits j.lbl)) ks
      → All NotPrefix ks
  after-NotPrefix k [] e h = tt
  after-NotPrefix k (j ∷ js) e (h, hs) = (
    λ p.
        let g =
          Before-lex_gt (bits k.lbl) (bits lbl)
            (Before-prefix_right (bits k.lbl) (bits j.lbl) (bits lbl) h p) in
        absurd (cc),
    after-NotPrefix k js e hs,
  )

  pub rank_zero-NotPrefix : (ks : List PprfKey) → IsOrdered ks → rank ks ≡ 0 → All NotPrefix ks
  rank_zero-NotPrefix [] o e = tt
  rank_zero-NotPrefix (k ∷ ks) (h, o) e = elim (Ordering-cases (lex (bits lbl) (bits k.lbl))) [
    | inl b ↦ (λ p. lex-prefix (bits lbl) (bits k.lbl) p b, after-NotPrefix k ks b h)
    | inr a ↦ absurd (omega (arith, rank-above k ks a))
  ]

  -- Before a key that is not above `lbl`, nothing is a prefix of it.
  pub before-NotPrefix :
      (k : PprfKey) (ks : List PprfKey)
      → All (λ j. Before (bits k.lbl) (bits j.lbl)) ks
      → rank ks ≢ 0
      → NotPrefix k
  before-NotPrefix k [] h ne p = ne refl
  before-NotPrefix k (j ∷ js) (h, hs) ne p = ne (
      rank-below j js (
        Before-lex (bits lbl) (bits j.lbl)
          (Before-prefix_left (bits k.lbl) (bits j.lbl) (bits lbl) h p)))
