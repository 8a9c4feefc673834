-- ===== src/KeyTable/Crash.antt =====
-- The rotation of the key table, as a whole and interrupted.
use secure_deletion.Common.{
  ℕ, ◌≤◌, ◌<◌, ◌≡◌, refl, sym, ap, ◌∙◌, arith, ◌⊎◌, false, true, Bool-cases, inl, inr, none, some,
  [], ltb, ltb→lt,
}
use secure_deletion.MapCache.{find_cache_entry}
use secure_deletion.KeyTable.{
  Table, Ciphers, lookup, bad_magic, sealed, read_old, read_new, rotate_table,
}
use secure_deletion.KeyTable.Rounds.{IsCipher, found_or_read}
use secure_deletion.KeyTable.Resume.{IsRotated, IsWaiting, rotate_from-in, rotate_from-else}

-- After a crash nothing is cached.
abbrev pub crash : Table → Table
crash rd = record rd { cache = record { map_cache_list = λ b. []; map_cache_count = 0 } }

-- When the first `i` sectors of the key table are rotated already and each of the others waits, cached or
-- on the disk under the old key, with no magic words under the new one, then
-- `holepunch_do_pprf_rotation`, with the magic words checked, leaves every sector of the table on the
-- disk under the new key, with its number as its tag, the magic words and the file keys that it had.
pub rotate_table-sealed :
    (c : Ciphers) (keys : ℕ → ℕ → ℕ) (rd : Table) (i len t : ℕ)
    → IsCipher c
    → ((u : ℕ) → u < i → IsRotated c u (keys u) rd)
    → ((u : ℕ) → i ≤ u → u < len → IsWaiting c u (keys u) rd)
    → t < len
    → (rotate_table c false len rd).disk t ≡ sealed c t (keys t)
unfolding rotate_table
rotate_table-sealed c keys rd i len t law rotated waiting lt =
    rotate_from-in c law keys rd i len rotated waiting len 0 t (omega arith) (omega arith)
      (omega arith)

-- What waits and is not cached, waits on the disk.
on_disk :
    (c : Ciphers) (k : ℕ → ℕ) (rd : Table) (t : ℕ)
    → IsWaiting c t k rd
    → lookup t rd ≡ none
    → ((read_old c t (rd.disk t)).entries ≡ k) × (bad_magic (read_new c t (rd.disk t)) ≡ true)
on_disk c k rd t (same, inl (e, l)) u = let clash : none ≡ some e = sym u ∙ l in cc
on_disk c k rd t (same, inr (l, bad)) u =
    (ap (λ o. (found_or_read c t rd o).entries) (sym u) ∙ same, bad)

module _ (c : Ciphers) (law : IsCipher c) (keys : ℕ → ℕ → ℕ) (rd : Table) (i j len : ℕ)
    (le : j ≤ len) (rotated : (u : ℕ) → u < i → IsRotated c u (keys u) rd)
    (waiting : (u : ℕ) → i ≤ u → u < len → IsWaiting c u (keys u) rd)
    (uncached : (u : ℕ) → lookup u rd ≡ none) where
  abbrev crashed : Table
  crashed = crash (rotate_table c false j rd)

  crashed-else : (t : ℕ) → j ≤ t → crashed.disk t ≡ rd.disk t
  unfolding rotate_table
  crashed-else t out =
      (rotate_from-else c law keys rd i j rotated (λ u ge lt. waiting u ge (omega arith)) j 0 t
        (omega arith) (inr (omega arith))).0

  crashed-IsRotated : (t : ℕ) → (t < i) ⊎ (t < j) → IsRotated c t (keys t) crashed
  unfolding find_cache_entry
  crashed-IsRotated t done = elim (Bool-cases (ltb t j)) [
    | inl before ↦
        let lt : t < j = ltb→lt t j before in
        (
          refl,
          rotate_table-sealed c keys rd i j t law rotated (λ u ge lt'. waiting u ge (omega arith))
              lt,
        )
    | inr after ↦ (refl, crashed-else t (ground arith) ∙ (rotated t (ground arith)).1)
  ]

  crashed-IsWaiting : (t : ℕ) → i ≤ t → j ≤ t → t < len → IsWaiting c t (keys t) crashed
  unfolding find_cache_entry
  crashed-IsWaiting t ge ge' lt =
      let (same, bad) = on_disk c (keys t) rd t (waiting t ge lt) (uncached t) in
      let e = sym (crashed-else t ge') in
      (
        ap (λ x. (read_old c t x).entries) (sym e) ∙ same,
        inr (refl, ap (λ x. bad_magic (read_new c t x)) (sym e) ∙ bad),
      )

  crashed-sealed :
      (t : ℕ) → t < len → (rotate_table c false len crashed).disk t ≡ sealed c t (keys t)
  crashed-sealed t lt = elim (Bool-cases (ltb i j)) [
    | inl before ↦
        let more : i < j = ltb→lt i j before in
        rotate_table-sealed c keys crashed j len t law (λ u done. crashed-IsRotated u (inr done))
          (λ u ge end. crashed-IsWaiting u (omega arith) ge end) lt
    | inr after ↦
        let less : j ≤ i = ground arith in
        rotate_table-sealed c keys crashed i len t law (λ u done. crashed-IsRotated u (inl done))
          (λ u ge end. crashed-IsWaiting u ge (omega arith) end) lt
  ]

-- A rotation of a table of which `i` sectors are rotated and nothing is cached can crash: interrupted
-- behind the first `j` sectors and run again from the start with the same new key, it leaves every sector
-- as the rotation without a crash does, under the new key and with the file keys that it had.
pub rotate_table-resumed :
    (c : Ciphers) (keys : ℕ → ℕ → ℕ) (rd : Table) (i j len t : ℕ)
    → IsCipher c
    → j ≤ len
    → ((u : ℕ) → u < i → IsRotated c u (keys u) rd)
    → ((u : ℕ) → i ≤ u → u < len → IsWaiting c u (keys u) rd)
    → ((u : ℕ) → lookup u rd ≡ none)
    → t < len
    → (rotate_table c false len (crash (rotate_table c false j rd))).disk t ≡ sealed c t (keys t)
rotate_table-resumed c keys rd i j len t law le rotated waiting uncached lt =
    crashed-sealed c law keys rd i j len le rotated waiting uncached t lt
