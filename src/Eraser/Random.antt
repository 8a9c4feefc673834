-- ===== src/Eraser/Random.antt =====
-- The random contexts of dm-eraser.c in a ledger: made, and destroyed in either order.
use secure_deletion.Common.{ℕ, zero, suc, ◌+◌, ◌≡◌, refl, ◌≢◌, sym, ap, ◌∙◌, arith, false, ◌∷◌}
use secure_deletion.Lifecycle.{
  Family, rand_tfm, rand_buf, Resource, member, kind, same, Ledger, release,
}
use secure_deletion.Lifecycle.Ledger.{
  members, release-top, release-other, same-kind_ne, same-cpu_ne,
}
use secure_deletion.Eraser.{destroy_rand_context, free_rand_down, free_rand_up}

-- The random contexts of the CPUs below `n` on top of a ledger.
abbrev pub rands : (n : ℕ) → Ledger → Ledger
rands zero s = s
rands (suc n) s = member rand_buf n ∷ member rand_tfm n ∷ rands n s

-- Those of the CPUs from `i`.
abbrev rands_from : (i n : ℕ) → Ledger → Ledger
rands_from i zero s = s
rands_from i (suc n) s = member rand_buf (n + i) ∷ member rand_tfm (n + i) ∷ rands_from i n s

destroy-top :
    (i : ℕ) (s : Ledger) → destroy_rand_context i (member rand_buf i ∷ member rand_tfm i ∷ s) ≡ s
destroy-top i s =
    ap (release (member rand_buf i))
      (ap (λ l. member rand_buf i ∷ l) (release-top (member rand_tfm i) s))
    ∙ release-top (member rand_buf i) s

-- A context is destroyed below what is no part of it.
destroy-over :
    (i : ℕ) (r : Resource) (s : Ledger)
    → same (member rand_buf i) r ≡ false
    → same (member rand_tfm i) r ≡ false
    → destroy_rand_context i (r ∷ s) ≡ r ∷ destroy_rand_context i s
destroy-over i r s e e' =
    ap (release (member rand_buf i)) (release-other (member rand_tfm i) r s e')
    ∙ release-other (member rand_buf i) r (release (member rand_tfm i) s) e

destroy-other :
    (i j : ℕ) (s : Ledger)
    → i ≢ j
    → destroy_rand_context i (member rand_buf j ∷ member rand_tfm j ∷ s)
      ≡ member rand_buf j ∷ member rand_tfm j ∷ destroy_rand_context i s
destroy-other i j s ne =
    destroy-over i (member rand_buf j) (member rand_tfm j ∷ s) (same-cpu_ne rand_buf i j ne) refl
    ∙ ap (λ l. member rand_buf j ∷ l)
        (destroy-over i (member rand_tfm j) s refl (same-cpu_ne rand_tfm i j ne))

pub free_rand_down-rands : (n : ℕ) (s : Ledger) → free_rand_down n (rands n s) ≡ s
free_rand_down-rands zero s = refl
free_rand_down-rands (suc n) s =
    ap (free_rand_down n) (destroy-top n (rands n s)) ∙ free_rand_down-rands n s

-- A resource of another kind is not touched.
pub free_rand_down-over :
    (n : ℕ) (r : Resource) (s : Ledger)
    → kind (member rand_buf 0) ≢ kind r
    → kind (member rand_tfm 0) ≢ kind r
    → free_rand_down n (r ∷ s) ≡ r ∷ free_rand_down n s
free_rand_down-over zero r s ne ne' = refl
free_rand_down-over (suc n) r s ne ne' =
    ap (free_rand_down n) (
      destroy-over n r s (same-kind_ne (member rand_buf n) r ne)
        (same-kind_ne (member rand_tfm n) r ne'))
    ∙ free_rand_down-over n r (destroy_rand_context n s) ne ne'

destroy-first :
    (i n : ℕ) (s : Ledger)
    → destroy_rand_context i (rands_from i (suc n) s) ≡ rands_from (suc i) n s
destroy-first i zero s = let e : 0 + i ≡ i = omega arith in rw e (destroy-top i s)
destroy-first i (suc n) s =
    let e : suc n + i ≡ n + suc i = omega arith in
    let ne : i ≢ n + suc i = omega arith in
    rw e (
      destroy-other i (n + suc i) (rands_from i (suc n) s) ne
      ∙ ap (λ l. member rand_buf (n + suc i) ∷ member rand_tfm (n + suc i) ∷ l)
          (destroy-first i n s))

free_rand_up-rands_from : (n i : ℕ) (s : Ledger) → free_rand_up n i (rands_from i n s) ≡ s
free_rand_up-rands_from zero i s = refl
free_rand_up-rands_from (suc n) i s =
    ap (free_rand_up n (suc i)) (destroy-first i n s) ∙ free_rand_up-rands_from n (suc i) s

rands_from-rands : (n : ℕ) (s : Ledger) → rands_from 0 n s ≡ rands n s
rands_from-rands zero s = refl
rands_from-rands (suc n) s =
    let e : n + 0 ≡ n = omega arith in
    rw e (ap (λ l. member rand_buf n ∷ member rand_tfm n ∷ l) (rands_from-rands n s))

pub free_rand_up-rands : (n : ℕ) (s : Ledger) → free_rand_up n 0 (rands n s) ≡ s
free_rand_up-rands n s =
    ap (free_rand_up n 0) (sym (rands_from-rands n s)) ∙ free_rand_up-rands_from n 0 s

pub free_rand_up-over :
    (n i : ℕ) (r : Resource) (s : Ledger)
    → kind (member rand_buf 0) ≢ kind r
    → kind (member rand_tfm 0) ≢ kind r
    → free_rand_up n i (r ∷ s) ≡ r ∷ free_rand_up n i s
free_rand_up-over zero i r s ne ne' = refl
free_rand_up-over (suc n) i r s ne ne' =
    ap (free_rand_up n (suc i)) (
      destroy-over i r s (same-kind_ne (member rand_buf i) r ne)
        (same-kind_ne (member rand_tfm i) r ne'))
    ∙ free_rand_up-over n (suc i) r (destroy_rand_context i s) ne ne'

-- The contexts are destroyed below another family, and a sector is released below them.
pub free_rand_up-members :
    (f : Family) (n i m : ℕ) (s : Ledger)
    → kind (member rand_buf 0) ≢ kind (member f 0)
    → kind (member rand_tfm 0) ≢ kind (member f 0)
    → free_rand_up n i (members f m s) ≡ members f m (free_rand_up n i s)
free_rand_up-members f n i zero s ne ne' = refl
free_rand_up-members f n i (suc m) s ne ne' =
    free_rand_up-over n i (member f m) (members f m s) ne ne'
    ∙ ap (λ l. member f m ∷ l) (free_rand_up-members f n i m s ne ne')

pub release-rands :
    (r : Resource) (n : ℕ) (s : Ledger)
    → kind r ≢ kind (member rand_buf 0)
    → kind r ≢ kind (member rand_tfm 0)
    → release r (rands n s) ≡ rands n (release r s)
release-rands r zero s ne ne' = refl
release-rands r (suc n) s ne ne' =
    release-other r (member rand_buf n) _ (same-kind_ne r (member rand_buf n) ne)
    ∙ ap (λ l. member rand_buf n ∷ l)
        (release-other r (member rand_tfm n) _ (same-kind_ne r (member rand_tfm n) ne')
          ∙ ap (λ l. member rand_tfm n ∷ l) (release-rands r n s ne ne'))
