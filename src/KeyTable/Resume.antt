-- ===== src/KeyTable/Resume.antt =====
-- The rotation of a key table of which a first part is rotated already: what it leaves, and that it can
-- be interrupted.
use mathlib.Core.Path.{subst}
use secure_deletion.Common.{
  ℕ, zero, suc, ◌+◌, ◌≤◌, ◌<◌, ◌≡◌, refl, sym, ◌≢◌, ap, ◌∙◌, arith, ◌⊎◌, true, false, Bool-cases,
  inl, inr, none, some, if◌then◌else◌, ℕ-cases, ltb, ltb→lt,
}
use secure_deletion.MapCache.{FilekeySector, CacheEntry}
use secure_deletion.KeyTable.{
  Table, Ciphers, lookup, drop, bad_magic, marked, sealed, read_old, read_new, convert,
  rotate_stopped, first_round, rotate_from,
}
use secure_deletion.KeyTable.Rounds.{
  IsCipher, contents, found_or_read, Same, Same-trans, drop-else, rotate_stopped-in,
  rotate_stopped-else,
}

module _ (c : Ciphers) where
  -- A sector that is rotated, with these keys, and one that waits: it is cached, or on the disk it has no
  -- magic words under the new key.
  abbrev pub IsRotated : (t : ℕ) → (ℕ → ℕ) → Table → Type 0
  IsRotated t entries rd = (lookup t rd ≡ none) × (rd.disk t ≡ sealed c t entries)

  abbrev pub IsWaiting : (t : ℕ) → (ℕ → ℕ) → Table → Type 0
  IsWaiting t entries rd =
      ((contents c t rd).entries ≡ entries)
      × (((e : CacheEntry) × (lookup t rd ≡ some e))
          ⊎ ((lookup t rd ≡ none) × (bad_magic (read_new c t (rd.disk t)) ≡ true)))

  module _ (law : IsCipher c) where
    read_new-sealed :
        (t : ℕ) (entries : ℕ → ℕ) → read_new c t (sealed c t entries) ≡ marked t entries
    read_new-sealed t entries =
        ap (λ tag. c.decrypt (c.new_key tag) t (sealed c t entries))
          (law.tag-encrypt (c.new_key t) t (marked t entries))
        ∙ law.decrypt-encrypt (c.new_key t) t (marked t entries)

    convert-read_new : (t : ℕ) (x : FilekeySector) → convert c t (read_new c t x) ≡ read_old c t x
    convert-read_new t x =
        ap (λ tag. read_old c t (c.encrypt (c.new_key tag) t (read_new c t x)))
          (law.tag-decrypt (c.new_key x.tag) t x)
        ∙ ap (read_old c t) (law.encrypt-decrypt (c.new_key x.tag) t x)

    -- The first loop goes on at a rotated sector ...
    first_round-rotated :
        (n sno : ℕ) (entries : ℕ → ℕ) (rest rd : Table)
        → IsRotated sno entries rd
        → first_round c false n sno rest rd (lookup sno rd) ≡ rest
    first_round-rotated n sno entries rest rd (l, d) =
        let good : bad_magic (read_new c sno (rd.disk sno)) ≡ false =
          ap (λ x. bad_magic (read_new c sno x)) d ∙ ap bad_magic (read_new-sealed sno entries) in
        let stopped = rotate_stopped c n sno (convert c sno (read_new c sno (rd.disk sno))) rd in
        ap (first_round c false n sno rest rd) l ∙ ap (λ b. if b then stopped else rest) good

    -- ... and stops at one that waits, with its contents.
    first_round-waiting :
        (n sno : ℕ) (entries : ℕ → ℕ) (rest rd : Table)
        → IsWaiting sno entries rd
        → (plain : FilekeySector) × (found : Table) × (first_round c false n sno rest rd
              (lookup sno rd)
            ≡ rotate_stopped c n sno plain found)
          × (plain ≡ contents c sno rd)
          × ((u : ℕ) → sno ≢ u → Same c u found rd)
    first_round-waiting n sno entries rest rd (same, inl (e, l)) = (
      e.map,
      drop sno rd,
      ap (first_round c false n sno rest rd) l,
      ap (found_or_read c sno rd) (sym l),
      λ u ne. drop-else c sno u rd ne,
    )
    first_round-waiting n sno entries rest rd (same, inr (l, bad)) =
        let plain = convert c sno (read_new c sno (rd.disk sno)) in
        let stopped = rotate_stopped c n sno plain rd in
        (
          plain,
          rd,
          ap (first_round c false n sno rest rd) l ∙ ap (λ b. if b then stopped else rest) bad,
          convert-read_new sno (rd.disk sno) ∙ ap (found_or_read c sno rd) (sym l),
          λ u ne. (refl, refl),
        )

    -- What follows a sector that waits, in the sectors of the table and elsewhere.
    first_round-in :
        (n sno t : ℕ) (entries : ℕ → ℕ) (rest rd : Table)
        → IsWaiting sno entries rd
        → sno ≤ t
        → t < sno + suc n
        → (first_round c false n sno rest rd (lookup sno rd)).disk t
          ≡ sealed c t (contents c t rd).entries
    first_round-in n sno t entries rest rd waits le lt =
        let (plain, found, e, same, others) = first_round-waiting n sno entries rest rd waits in
        ap (λ x. x.disk t) e ∙ rotate_stopped-in c n sno t plain found rd same others le lt

    first_round-else :
        (n sno t : ℕ) (entries : ℕ → ℕ) (rest rd : Table)
        → IsWaiting sno entries rd
        → (t < sno) ⊎ (sno + suc n ≤ t)
        → Same c t (first_round c false n sno rest rd (lookup sno rd)) rd
    first_round-else n sno t entries rest rd waits out =
        let (plain, found, e, same, others) = first_round-waiting n sno entries rest rd waits in
        subst (λ x. Same c t x rd) (sym e)
          (Same-trans c t (rotate_stopped c n sno plain found) found rd
            (rotate_stopped-else c n sno t plain found out) (others t (ground arith)))

    module _ (keys : ℕ → ℕ → ℕ) (rd : Table) (i len : ℕ)
        (rotated : (t : ℕ) → t < i → IsRotated t (keys t) rd)
        (waiting : (t : ℕ) → i ≤ t → t < len → IsWaiting t (keys t) rd) where
      pub rotate_from-else :
          (n sno t : ℕ)
          → sno + n ≤ len
          → (t < sno) ⊎ (sno + n ≤ t)
          → Same c t (rotate_from c false n sno rd) rd
      unfolding rotate_from
      rotate_from-else zero sno t end out = (refl, refl)
      rotate_from-else (suc n) sno t end out = elim (Bool-cases (ltb sno i)) [
        | inl before ↦
            let here : sno < i = ltb→lt sno i before in
            let rest = rotate_from c false n (suc sno) rd in
            subst (λ x. Same c t x rd)
              (sym (first_round-rotated n sno (keys sno) rest rd (rotated sno here)))
              (rotate_from-else n (suc sno) t (omega arith) (ground arith))
        | inr after ↦
            let there : i ≤ sno = ground arith in
            first_round-else n sno t (keys sno) (rotate_from c false n (suc sno) rd) rd
              (waiting sno there (omega arith)) out
      ]

      pub rotate_from-in :
          (n sno t : ℕ)
          → sno + n ≤ len
          → sno ≤ t
          → t < sno + n
          → (rotate_from c false n sno rd).disk t ≡ sealed c t (keys t)
      unfolding rotate_from
      rotate_from-in zero sno t end le lt = let none_left : ⊥ = omega arith in elim none_left [ ]
      rotate_from-in (suc n) sno t end le lt = elim (Bool-cases (ltb sno i)) [
        | inl before ↦
            let here : sno < i = ltb→lt sno i before in
            let rest = rotate_from c false n (suc sno) rd in
            ap (λ x. x.disk t) (first_round-rotated n sno (keys sno) rest rd (rotated sno here))
            ∙ elim (ℕ-cases sno t) [
              | inl e ↦
                  (rotate_from-else n (suc sno) t (omega arith) (inl (omega arith))).0
                  ∙ (rotated t (omega arith)).1
              | inr ne ↦ rotate_from-in n (suc sno) t (omega arith) (omega arith) (omega arith)
            ]
        | inr after ↦
            let there : i ≤ sno = ground arith in
            first_round-in n sno t (keys sno) (rotate_from c false n (suc sno) rd) rd
              (waiting sno there (omega arith)) le lt
            ∙ ap (sealed c t) (waiting t (omega arith) (omega arith)).0
      ]
