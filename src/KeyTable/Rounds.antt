-- ===== src/KeyTable/Rounds.antt =====
-- The two loops over the key table, round by round.
use mathlib.Core.Path.{subst}
use secure_deletion.Common.{
  ℕ, zero, suc, ◌+◌, ◌≤◌, ◌<◌, ◌≡◌, refl, ◌≢◌, ap, ◌∙◌, arith, ◌⊎◌, true, false, ◌==◌, Option-cases,
  inl, inr, Option, none, some, ℕ-cases,
}
use secure_deletion.PprfTree.{Block}
use secure_deletion.MapCache.{FilekeySector, CacheEntry}
use secure_deletion.KeyTable.{
  Table, Ciphers, lookup, drop, sealed, read_old, store, load_found, load, rotate_rest,
  rotate_stopped,
}
use secure_deletion.KeyTable.Cached.{lookup-drop_ne}

-- What the kernel's ciphers do: either direction undoes the other, and keeps the tag.
pub record IsCipher (c : Ciphers) : Type 0 where
  pub decrypt-encrypt :
      (k : Block) (sno : ℕ) (x : FilekeySector) → c.decrypt k sno (c.encrypt k sno x) ≡ x
  pub encrypt-decrypt :
      (k : Block) (sno : ℕ) (x : FilekeySector) → c.encrypt k sno (c.decrypt k sno x) ≡ x
  pub tag-encrypt : (k : Block) (sno : ℕ) (x : FilekeySector) → (c.encrypt k sno x).tag ≡ x.tag
  pub tag-decrypt : (k : Block) (sno : ℕ) (x : FilekeySector) → (c.decrypt k sno x).tag ≡ x.tag

module _ (c : Ciphers) where
  -- The contents of a sector that is not rotated: cached, or on the disk under the old key.
  abbrev pub found_or_read : (t : ℕ) → Table → Option CacheEntry → FilekeySector
  found_or_read t rd (some e) = e.map
  found_or_read t rd none = read_old c t (rd.disk t)

  abbrev pub contents : (t : ℕ) → Table → FilekeySector
  contents t rd = found_or_read t rd (lookup t rd)

  -- Two tables that agree on a sector.
  abbrev pub Same : (t : ℕ) → (rd rd' : Table) → Type 0
  Same t rd rd' = (rd.disk t ≡ rd'.disk t) × (lookup t rd ≡ lookup t rd')

  Same-contents : (t : ℕ) (rd rd' : Table) → Same t rd rd' → contents t rd ≡ contents t rd'
  Same-contents t rd rd' (d, l) = elim (Option-cases (lookup t rd')) [
    | inl e ↦ rw (l, e) (ap (read_old c t) d)
    | inr (x, e) ↦ rw (l, e) refl
  ]

  store-here :
      (sno : ℕ) (plain : FilekeySector) (rd : Table)
      → (store c sno plain rd).disk sno ≡ sealed c sno plain.entries
  store-here sno plain rd = let e : (sno == sno) ≡ true = ground arith in rw e refl

  store-else :
      (sno t : ℕ) (plain : FilekeySector) (rd : Table) → sno ≢ t → Same t (store c sno plain rd) rd
  store-else sno t plain rd ne = let e : (sno == t) ≡ false = ground arith in (rw e refl, refl)

  pub drop-else : (sno t : ℕ) (rd : Table) → sno ≢ t → Same t (drop sno rd) rd
  drop-else sno t rd ne = (refl, lookup-drop_ne sno t rd ne)

  pub Same-trans : (t : ℕ) (a b d : Table) → Same t a b → Same t b d → Same t a d
  Same-trans t a b d (p, q) (p', q') = (p ∙ p', q ∙ q')

  -- A round of the second loop: the sector is sealed, the others are as they were.
  abbrev round : (sno : ℕ) → Table → Table
  round sno rd = store c sno (load c sno rd).0 (load c sno rd).1

  load_found-contents :
      (sno : ℕ) (rd : Table) (o : Option CacheEntry)
      → (load_found c sno rd o).0 ≡ found_or_read sno rd o
  load_found-contents sno rd none = refl
  load_found-contents sno rd (some e) = refl

  load_found-else :
      (sno t : ℕ) (rd : Table) (o : Option CacheEntry)
      → sno ≢ t
      → Same t (load_found c sno rd o).1 rd
  load_found-else sno t rd none ne = (refl, refl)
  load_found-else sno t rd (some e) ne = drop-else sno t rd ne

  round-here :
      (sno : ℕ) (rd : Table) → (round sno rd).disk sno ≡ sealed c sno (contents sno rd).entries
  unfolding load
  round-here sno rd =
      store-here sno (load c sno rd).0 (load c sno rd).1
      ∙ ap (λ x. sealed c sno x.entries) (load_found-contents sno rd (lookup sno rd))

  round-else : (sno t : ℕ) (rd : Table) → sno ≢ t → Same t (round sno rd) rd
  unfolding load
  round-else sno t rd ne =
      Same-trans t (round sno rd) (load c sno rd).1 rd
        (store-else sno t (load c sno rd).0 (load c sno rd).1 ne)
        (load_found-else sno t rd (lookup sno rd) ne)

  pub rotate_rest-else :
      (n sno t : ℕ) (rd : Table) → (t < sno) ⊎ (sno + n ≤ t) → Same t (rotate_rest c n sno rd) rd
  unfolding rotate_rest
  rotate_rest-else zero sno t rd out = (refl, refl)
  rotate_rest-else (suc n) sno t rd out =
      Same-trans t (rotate_rest c (suc n) sno rd) (round sno rd) rd
        (rotate_rest-else n (suc sno) t (round sno rd) (ground arith))
        (round-else sno t rd (ground arith))

  pub rotate_rest-in :
      (n sno t : ℕ) (rd : Table)
      → sno ≤ t
      → t < sno + n
      → (rotate_rest c n sno rd).disk t ≡ sealed c t (contents t rd).entries
  unfolding rotate_rest
  rotate_rest-in zero sno t rd le lt = let none_left : ⊥ = omega arith in elim none_left [ ]
  rotate_rest-in (suc n) sno t rd le lt = elim (ℕ-cases sno t) [
    | inl e ↦
        (rotate_rest-else n (suc sno) t (round sno rd) (inl (omega arith))).0
        ∙ subst (λ x. (round sno rd).disk x ≡ sealed c x (contents x rd).entries) e
            (round-here sno rd)
    | inr ne ↦
        rotate_rest-in n (suc sno) t (round sno rd) (omega arith) (omega arith)
        ∙ ap (λ x. sealed c t x.entries)
            (Same-contents t (round sno rd) rd (round-else sno t rd ne))
  ]

  -- The first round of the second loop with the rest of it, on a table `rd` that differs from `before`
  -- at most in the sector.
  pub rotate_stopped-in :
      (n sno t : ℕ) (plain : FilekeySector) (rd before : Table)
      → plain ≡ contents sno before
      → ((u : ℕ) → sno ≢ u → Same u rd before)
      → sno ≤ t
      → t < sno + suc n
      → (rotate_stopped c n sno plain rd).disk t ≡ sealed c t (contents t before).entries
  rotate_stopped-in n sno t plain rd before same others le lt = elim (ℕ-cases sno t) [
    | inl e ↦
        (rotate_rest-else n (suc sno) t (store c sno plain rd) (inl (omega arith))).0
        ∙ subst (λ x. (store c sno plain rd).disk x ≡ sealed c x (contents x before).entries) e
            (store-here sno plain rd ∙ ap (λ x. sealed c sno x.entries) same)
    | inr ne ↦
        rotate_rest-in n (suc sno) t (store c sno plain rd) (omega arith) (omega arith)
        ∙ ap (λ x. sealed c t x.entries)
            (Same-contents t (store c sno plain rd) before (
              Same-trans t (store c sno plain rd) rd before (store-else sno t plain rd ne)
                (others t ne)))
  ]

  pub rotate_stopped-else :
      (n sno t : ℕ) (plain : FilekeySector) (rd : Table)
      → (t < sno) ⊎ (sno + suc n ≤ t)
      → Same t (rotate_stopped c n sno plain rd) rd
  rotate_stopped-else n sno t plain rd out =
      Same-trans t (rotate_stopped c n sno plain rd) (store c sno plain rd) rd
        (rotate_rest-else n (suc sno) t (store c sno plain rd) (ground arith))
        (store-else sno t plain rd (ground arith))
