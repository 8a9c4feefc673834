-- ===== src/Ggm/Sorting.antt =====
-- What `sort` of the kernel promises, and what that makes of labels that are apart.
use Prim.Native.Nat.{Ordering}
use mathlib.Core.Path.{subst}
use mathlib.Core.List.{Permᴰ}
use secure_deletion.Common.{suc, ◌≡◌, ◌≢◌, refl, List, [], ◌∷◌, length, All, Any, ap, ◌∙◌, inl, inr}
use secure_deletion.Ggm.{PprfKey}
use secure_deletion.Ggm.Labels.{compare_node_labels}
use secure_deletion.Ggm.Order.{bits, Before, compare-lex}
use secure_deletion.Ggm.Prefixes.{Before-lex_gt, Before-trans}
use secure_deletion.Ggm.Rank.{IsOrdered}
use secure_deletion.Ggm.Neighbors.{Diverge, AreApart}

-- No key is above the next one, by `compare_pkeys_by_label`.
abbrev pub IsSorted : List PprfKey → Type 0
IsSorted [] = Unit
IsSorted (k ∷ []) = Unit
IsSorted (k ∷ j ∷ ks) = (compare_node_labels k.lbl j.lbl ≢ Ordering.gt) × IsSorted (j ∷ ks)

-- `sort` puts the same keys into that order.
abbrev pub Sorts : (List PprfKey → List PprfKey) → Type 0
Sorts sort = (l : List PprfKey) → Permᴰ l (sort l) × IsSorted (sort l)

module _ (P : PprfKey → Type 0) where
  pub All-perm : {l m : List PprfKey} → Permᴰ l m → All P l → All P m
  All-perm Permᴰ.nil h = h
  All-perm (Permᴰ.cons e p) (h, hs) = (subst P e h, All-perm p hs)
  All-perm (Permᴰ.swap e f) (h, (k, hs)) = (subst P f k, (subst P e h, hs))
  All-perm (Permᴰ.trans p q) h = All-perm q (All-perm p h)

  pub Any-perm : {l m : List PprfKey} → Permᴰ l m → Any P l → Any P m
  Any-perm Permᴰ.nil h = h
  Any-perm (Permᴰ.cons e p) (inl h) = inl (subst P e h)
  Any-perm (Permᴰ.cons e p) (inr h) = inr (Any-perm p h)
  Any-perm (Permᴰ.swap e f) (inl h) = inr (inl (subst P e h))
  Any-perm (Permᴰ.swap e f) (inr (inl h)) = inl (subst P f h)
  Any-perm (Permᴰ.swap e f) (inr (inr h)) = inr (inr h)
  Any-perm (Permᴰ.trans p q) h = Any-perm q (Any-perm p h)

pub length-perm : {l m : List PprfKey} → Permᴰ l m → length l ≡ length m
length-perm Permᴰ.nil = refl
length-perm (Permᴰ.cons e p) = ap suc (length-perm p)
length-perm (Permᴰ.swap e f) = refl
length-perm (Permᴰ.trans p q) = length-perm p ∙ length-perm q

Diverge-comm : (a b : PprfKey) → Diverge a.lbl b.lbl → Diverge b.lbl a.lbl
Diverge-comm a b (inl h) = inr h
Diverge-comm a b (inr h) = inl h

pub AreApart-perm : {l m : List PprfKey} → Permᴰ l m → AreApart l → AreApart m
AreApart-perm Permᴰ.nil h = h
AreApart-perm (Permᴰ.cons {a} {b} {l₁} {l₂} e p) (h, hs) = (
  subst (λ x. All (λ j. Diverge x.lbl j.lbl) l₂) e (All-perm (λ j. Diverge a.lbl j.lbl) p h),
  AreApart-perm p hs,
)
AreApart-perm (Permᴰ.swap {a} {b} {a'} {b'} {l} e f) ((h, hs), (k, ks)) = (
  (
    subst (λ x. Diverge a'.lbl x.lbl) e (subst (λ x. Diverge x.lbl a.lbl) f (Diverge-comm a b h)),
    subst (λ x. All (λ j. Diverge x.lbl j.lbl) l) f k,
  ),
  (subst (λ x. All (λ j. Diverge x.lbl j.lbl) l) e hs, ks),
)
AreApart-perm (Permᴰ.trans p q) h = AreApart-perm q (AreApart-perm p h)

Diverge-Before :
    (k j : PprfKey)
    → compare_node_labels k.lbl j.lbl ≢ Ordering.gt
    → Diverge k.lbl j.lbl
    → Before (bits k.lbl) (bits j.lbl)
Diverge-Before k j s (inl h) = h
Diverge-Before k j s (inr h) =
    absurd (s (compare-lex k.lbl j.lbl ∙ Before-lex_gt (bits j.lbl) (bits k.lbl) h))

All-Before :
    (k j : PprfKey) (ks : List PprfKey)
    → Before (bits k.lbl) (bits j.lbl)
    → All (λ i. Before (bits j.lbl) (bits i.lbl)) ks
    → All (λ i. Before (bits k.lbl) (bits i.lbl)) ks
All-Before k j [] h hs = tt
All-Before k j (i ∷ is) h (g, gs) =
    (Before-trans (bits k.lbl) (bits j.lbl) (bits i.lbl) h g, All-Before k j is h gs)

-- Keys that are apart, in sorted order.
pub AreApart-IsOrdered : (l : List PprfKey) → AreApart l → IsSorted l → IsOrdered l
AreApart-IsOrdered [] h s = tt
AreApart-IsOrdered (k ∷ []) h s = (tt, tt)
AreApart-IsOrdered (k ∷ j ∷ ks) ((h, hs), rest) (s, ss) =
    let b = Diverge-Before k j s h in
    let o = AreApart-IsOrdered (j ∷ ks) rest ss in ((b, All-Before k j ks b o.0), o)
