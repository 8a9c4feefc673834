-- ===== src/KeyTable/Emptied.antt =====
-- What the rotation leaves of the cache: it drops the entry of every sector of the table.
use secure_deletion.Common.{
  ℕ, zero, suc, ◌+◌, ◌≤◌, ◌<◌, ◌≡◌, refl, sym, ◌≢◌, ap, ◌∙◌, arith, List, [], ◌∷◌, true, false,
  ◌==◌, Bool-cases, inl, inr, none, some, ℕ-cases, Option-cases,
}
use mathlib.Core.Path.{subst}
use secure_deletion.MapCache.{
  FilekeySector, CacheEntry, bucket_of, find_cache_entry, delete_entry, drop_map_cache,
}
use secure_deletion.KeyTable.{
  Table, Ciphers, lookup, drop, store, load, rotate_rest, rotate_stopped, rotate_from, rotate_table,
  convert, read_new, bad_magic,
}
use secure_deletion.KeyTable.Cached.{find-delete_ne, lookup-drop_ne}
use secure_deletion.KeyTable.Rounds.{rotate_rest-else}

-- The sector is cached once at most: behind its entry there is no other.
abbrev pub Once : (t : ℕ) → Table → Type 0
Once t rd = find_cache_entry t (delete_entry t (rd.cache.map_cache_list (bucket_of t))) ≡ none

pub delete-here :
    (a : ℕ) (c : CacheEntry) (cs : List CacheEntry)
    → (c.sector == a) ≡ true
    → delete_entry a (c ∷ cs) ≡ cs
unfolding delete_entry
delete-here a c cs e = rw e refl

pub delete-else :
    (a : ℕ) (c : CacheEntry) (cs : List CacheEntry)
    → (c.sector == a) ≡ false
    → delete_entry a (c ∷ cs) ≡ c ∷ delete_entry a cs
unfolding delete_entry
delete-else a c cs e = rw e refl

delete-nil : (a b : ℕ) → delete_entry a (delete_entry b []) ≡ delete_entry b (delete_entry a [])
unfolding delete_entry
delete-nil a b = refl

delete-delete :
    (a b : ℕ) (l : List CacheEntry)
    → a ≢ b
    → delete_entry a (delete_entry b l) ≡ delete_entry b (delete_entry a l)
delete-delete a b [] ne = delete-nil a b
delete-delete a b (c ∷ cs) ne = elim (Bool-cases (c.sector == a)) [
  | inl e ↦
      let v : (c.sector == b) ≡ false = ground arith in
      ap (delete_entry a) (delete-else b c cs v)
      ∙ delete-here a c (delete_entry b cs) e
      ∙ ap (delete_entry b) (sym (delete-here a c cs e))
  | inr e ↦ elim (Bool-cases (c.sector == b)) [
    | inl v ↦
        ap (delete_entry a) (delete-here b c cs v)
        ∙ sym (delete-here b c (delete_entry a cs) v)
        ∙ ap (delete_entry b) (sym (delete-else a c cs e))
    | inr v ↦
        ap (delete_entry a) (delete-else b c cs v)
        ∙ delete-else a c (delete_entry b cs) e
        ∙ ap (λ r. c ∷ r) (delete-delete a b cs ne)
        ∙ sym (delete-else b c (delete_entry a cs) v)
        ∙ ap (delete_entry b) (sym (delete-else a c cs e))
  ]
]

-- What is not cached is not cached twice.
pub delete-none : (t : ℕ) (l : List CacheEntry) → find_cache_entry t l ≡ none → delete_entry t l ≡ l
unfolding find_cache_entry delete_entry
delete-none t [] out = refl
delete-none t (c ∷ cs) out = elim (Bool-cases (c.sector == t)) [
  | inl e ↦ let found : some c ≡ none = rw e at out in cc
  | inr e ↦
      let rest : find_cache_entry t cs ≡ none = rw e at out in
      rw e (ap (λ r. c ∷ r) (delete-none t cs rest))
]

pub none-Once : (t : ℕ) (rd : Table) → lookup t rd ≡ none → Once t rd
none-Once t rd out =
    ap (find_cache_entry t) (delete-none t (rd.cache.map_cache_list (bucket_of t)) out) ∙ out

pub lookup-drop : (t : ℕ) (rd : Table) → Once t rd → lookup t (drop t rd) ≡ none
unfolding drop_map_cache
lookup-drop t rd once = let e : (bucket_of t == bucket_of t) ≡ true = ground arith in rw e once

pub Once-drop : (s t : ℕ) (rd : Table) → s ≢ t → Once t rd → Once t (drop s rd)
unfolding drop_map_cache
Once-drop s t rd ne once = elim (ℕ-cases (bucket_of s) (bucket_of t)) [
  | inl e ↦
      let a : (bucket_of s == bucket_of t) ≡ true = ground arith in
      let l = rd.cache.map_cache_list in
      rw a (
        ap (λ b. find_cache_entry t (delete_entry t (delete_entry s (l b)))) e
        ∙ ap (find_cache_entry t) (delete-delete t s (l (bucket_of t)) (λ q. ne (sym q)))
        ∙ find-delete_ne s t (delete_entry t (l (bucket_of t))) ne
        ∙ once)
  | inr n ↦ let a : (bucket_of s == bucket_of t) ≡ false = ground arith in rw a once
]

module _ (c : Ciphers) where
  abbrev round : (sno : ℕ) → Table → Table
  round sno rd = store c sno (load c sno rd).0 (load c sno rd).1

  round-none : (sno : ℕ) (rd : Table) → Once sno rd → lookup sno (round sno rd) ≡ none
  unfolding load
  round-none sno rd once = elim (Option-cases (lookup sno rd)) [
    | inl l ↦ rw l l
    | inr (e, l) ↦ rw l (lookup-drop sno rd once)
  ]

  round-Once : (sno t : ℕ) (rd : Table) → sno ≢ t → Once t rd → Once t (round sno rd)
  unfolding load
  round-Once sno t rd ne once = elim (Option-cases (lookup sno rd)) [
    | inl l ↦ rw l once
    | inr (e, l) ↦ rw l (Once-drop sno t rd ne once)
  ]

  rotate_rest-none :
      (n sno t : ℕ) (rd : Table)
      → sno ≤ t
      → t < sno + n
      → Once t rd
      → lookup t (rotate_rest c n sno rd) ≡ none
  unfolding rotate_rest
  rotate_rest-none zero sno t rd le lt once = absurd (omega arith)
  rotate_rest-none (suc n) sno t rd le lt once = elim (ℕ-cases sno t) [
    | inl e ↦
        (rotate_rest-else c n (suc sno) t (round sno rd) (inl (omega arith))).1
        ∙ subst (λ x. lookup x (round sno rd) ≡ none) e
            (round-none sno rd (subst (λ x. Once x rd) (sym e) once))
    | inr ne ↦
        rotate_rest-none n (suc sno) t (round sno rd) (omega arith) (omega arith)
          (round-Once sno t rd ne once)
  ]

  -- The first round of the second loop with the rest, behind a sector that is no longer cached.
  rotate_stopped-none :
      (n sno t : ℕ) (plain : FilekeySector) (rd : Table)
      → sno ≤ t
      → t < sno + suc n
      → lookup sno rd ≡ none
      → (sno ≢ t → Once t rd)
      → lookup t (rotate_stopped c n sno plain rd) ≡ none
  rotate_stopped-none n sno t plain rd le lt out once = elim (ℕ-cases sno t) [
    | inl e ↦
        (rotate_rest-else c n (suc sno) t (store c sno plain rd) (inl (omega arith))).1
        ∙ subst (λ x. lookup x rd ≡ none) e out
    | inr ne ↦
        rotate_rest-none n (suc sno) t (store c sno plain rd) (omega arith) (omega arith) (once ne)
  ]

  rotate_from-before :
      (n sno t : ℕ) (rd : Table)
      → t < sno
      → lookup t rd ≡ none
      → lookup t (rotate_from c false n sno rd) ≡ none
  unfolding rotate_from
  rotate_from-before zero sno t rd lt out = out
  rotate_from-before (suc n) sno t rd lt out = elim (Option-cases (lookup sno rd)) [
    | inl l ↦ elim (Bool-cases (bad_magic (read_new c sno (rd.disk sno)))) [
      | inl b ↦
          let plain = convert c sno (read_new c sno (rd.disk sno)) in
          rw (l, b)
            ((rotate_rest-else c n (suc sno) t (store c sno plain rd) (inl (omega arith))).1 ∙ out)
      | inr b ↦ rw (l, b) (rotate_from-before n (suc sno) t rd (omega arith) out)
    ]
    | inr (e, l) ↦ rw l (
        (rotate_rest-else c n (suc sno) t (store c sno (e.map) (drop sno rd)) (inl (omega arith))).1
        ∙ lookup-drop_ne sno t rd (omega arith)
        ∙ out)
  ]

  rotate_from-none :
      (n sno t : ℕ) (rd : Table)
      → ((u : ℕ) → u < sno + n → Once u rd)
      → sno ≤ t
      → t < sno + n
      → lookup t (rotate_from c false n sno rd) ≡ none
  unfolding rotate_from
  rotate_from-none zero sno t rd once le lt = absurd (omega arith)
  rotate_from-none (suc n) sno t rd once le lt = elim (Option-cases (lookup sno rd)) [
    | inl l ↦ elim (Bool-cases (bad_magic (read_new c sno (rd.disk sno)))) [
      | inl b ↦
          rw (l, b)
            (rotate_stopped-none n sno t (convert c sno (read_new c sno (rd.disk sno))) rd le lt l
              (λ ne. once t lt))
      | inr b ↦
          rw (l, b)
            (elim (ℕ-cases sno t) [
              | inl e ↦
                  rotate_from-before n (suc sno) t rd (omega arith)
                    (subst (λ x. lookup x rd ≡ none) e l)
              | inr ne ↦
                  rotate_from-none n (suc sno) t rd (λ u h. once u (omega arith)) (omega arith)
                    (omega arith)
            ])
    ]
    | inr (e, l) ↦ rw l (
        rotate_stopped-none n sno t e.map (drop sno rd) le lt
          (lookup-drop sno rd (once sno (omega arith))) (λ ne. Once-drop sno t rd ne (once t lt)))
  ]

  -- After the rotation of a table of which no sector is cached twice, none of its sectors is cached.
  pub rotate_table-none :
      (len t : ℕ) (rd : Table)
      → ((u : ℕ) → u < len → Once u rd)
      → t < len
      → lookup t (rotate_table c false len rd) ≡ none
  unfolding rotate_table
  rotate_table-none len t rd once lt =
      rotate_from-none len 0 t rd (λ u h. once u (omega arith)) (omega arith) (omega arith)
