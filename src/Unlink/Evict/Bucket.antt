-- ===== src/Unlink/Evict/Bucket.antt =====
-- The eviction of a whole bucket, as the cache has it.
use mathlib.Core.Path.{subst}
use secure_deletion.Common.{
  ℕ, Bool, ◌+◌, ◌*◌, ◌^◌, ◌≤◌, ◌<◌, ◌≡◌, ◌≢◌, refl, arith, true, Bool-cases, some, none, inl, inr,
  ap, sym, ◌∙◌, List, [], ◌∷◌, length, All, ◌==◌,
}
use secure_deletion.PprfTree.{Block}
use secure_deletion.MapCache.{CacheEntry, bucket_of, find_cache_entry, delete_entry}
use secure_deletion.MapCache.Lists.{find-new, find-new_ne}
use secure_deletion.KeyTable.{lookup}
use secure_deletion.KeyTable.Emptied.{delete-here, delete-none}
use secure_deletion.Unlink.{Config, FileCipher, Device, is_full}
use secure_deletion.Unlink.Sound.{IsFileCipher, IsConfig, IsSound}
use secure_deletion.Unlink.Entry.{skip}
use secure_deletion.Unlink.Renew.{IsNew}
use secure_deletion.Unlink.Evict.{Eviction, going, freed, sectors_of, will_write, evict_bucket}
use secure_deletion.Unlink.Evict.Round.{
  Cached, Different, evict_entries-IsSound, evict_entries-freed,
}

-- No entry of the list has the sector.
find_none-All :
    (t : ℕ) (l : List CacheEntry) → find_cache_entry t l ≡ none → All (λ s. t ≢ s) (sectors_of l)
unfolding find_cache_entry
find_none-All t [] out = tt
find_none-All t (c ∷ cs) out = elim (Bool-cases (c.sector == t)) [
  | inl e ↦ let clash : some c ≡ none = rw e at out in cc
  | inr e ↦
      let rest : find_cache_entry t cs ≡ none = rw e at out in
      ((λ q. let h : (c.sector == t) ≡ true = ground arith in cc), find_none-All t cs rest)
]

-- The entries of bucket `i` belong there and to the key table.
abbrev pub IsPlaced : (len i : ℕ) → List CacheEntry → Type 0
IsPlaced len i = All (λ e. (e.sector < len) × (bucket_of e.sector ≡ i))

module _ (len i : ℕ) where
  -- No sector of the bucket is twice in the list.
  abbrev AreSingle : List CacheEntry → Type 0
  AreSingle l = (t : ℕ) → t < len → bucket_of t ≡ i → find_cache_entry t (delete_entry t l) ≡ none

  AreSingle-tail : (c : CacheEntry) (cs : List CacheEntry) → AreSingle (c ∷ cs) → AreSingle cs
  AreSingle-tail c cs single t lt e = elim (Bool-cases (c.sector == t)) [
    | inl h ↦
        let out = ap (find_cache_entry t) (sym (delete-here t c cs h)) ∙ single t lt e in
        ap (find_cache_entry t) (delete-none t cs out) ∙ out
    | inr h ↦ sym (skip t c cs h) ∙ single t lt e
  ]

  placed-Different :
      (l : List CacheEntry) → IsPlaced len i l → AreSingle l → Different (sectors_of l)
  placed-Different [] placed single = tt
  placed-Different (c ∷ cs) ((lt, at), placed) single =
      let h : (c.sector == c.sector) ≡ true = ground arith in
      (
        find_none-All c.sector cs (
            ap (find_cache_entry c.sector) (sym (delete-here c.sector c cs h))
            ∙ single c.sector lt at),
        placed-Different cs placed (AreSingle-tail c cs single),
      )

-- Entries of different sectors are found.
found-all :
    (l : List CacheEntry)
    → Different (sectors_of l)
    → All (λ s. (c : CacheEntry) × (find_cache_entry s l ≡ some c)) (sectors_of l)
found-all [] ne = tt
found-all (c ∷ cs) (ne, nes) =
    ((c, find-new c.sector c cs refl), later (sectors_of cs) ne (found-all cs nes))
  where
    later :
        (ss : List ℕ)
        → All (λ s. c.sector ≢ s) ss
        → All (λ s. (e : CacheEntry) × (find_cache_entry s cs ≡ some e)) ss
        → All (λ s. (e : CacheEntry) × (find_cache_entry s (c ∷ cs) ≡ some e)) ss
    later [] ne h = tt
    later (s ∷ ss) (n, ns) ((e, at), h) = ((e, find-new_ne s c cs n ∙ at), later ss ns h)

module _ (cfg : Config) (ok : IsConfig cfg) (prg : Block → Block × Block) (cipher : FileCipher)
    (law : IsFileCipher cipher) (stack : Block) (new_key : Block) (time_after : (a b : ℕ) → Bool)
    (last_dirty_timeout last_access_timeout : ℕ) (i : ℕ) (rd : Device) (sound : IsSound cfg rd)
    (placed : IsPlaced cfg.key_table_len i (rd.table.cache.map_cache_list i)) where
  abbrev entries : List CacheEntry
  entries = rd.table.cache.map_cache_list i

  abbrev run : Eviction
  run =
      evict_bucket cfg prg cipher stack new_key time_after last_dirty_timeout last_access_timeout i
        rd

  different : Different (sectors_of entries)
  different = placed-Different cfg.key_table_len i entries placed (λ t lt e.
      ap (λ b. find_cache_entry t (delete_entry t (rd.table.cache.map_cache_list b))) (sym e)
      ∙ sound.once t lt)

  Cached-of :
      (l : List CacheEntry)
      → IsPlaced cfg.key_table_len i l
      → All (λ s. (c : CacheEntry) × (find_cache_entry s entries ≡ some c)) (sectors_of l)
      → Cached cfg ok prg cipher law stack new_key time_after last_dirty_timeout last_access_timeout
          rd
          (sectors_of l)
  Cached-of [] placed h = tt
  Cached-of (c ∷ cs) ((lt, e), rest) ((x, at), h) = (
    (lt, (x, ap (λ b. find_cache_entry c.sector (rd.table.cache.map_cache_list b)) e ∙ at)),
    Cached-of cs rest h,
  )

  -- When the invariant holds and the entries of the bucket belong there and to the key table, then,
  -- while the PPRF key has room for a puncture of each of them and as many tags of its depth are left, the
  -- eviction of the bucket uses no entry that is freed, and keeps the invariant.
  pub evict_bucket-IsSound :
      rd.pprf.size + 2 * cfg.pprf_depth * length (sectors_of entries) ≤ cfg.pprf_capacity
      → rd.tag_counter + length (sectors_of entries) ≤ 2 ^ cfg.pprf_depth
      → (after : Device) × (run ≡ going after) × IsSound cfg after
  unfolding evict_bucket
  evict_bucket-IsSound fit free =
      evict_entries-IsSound cfg ok prg cipher law stack new_key time_after last_dirty_timeout
        last_access_timeout (sectors_of entries) rd sound
        (Cached-of entries placed (found-all entries different)) different fit free

  -- When the invariant holds, the entries of the bucket belong there and to the key table, the PPRF key has
  -- no room, and no sector of the key table has the magic words under the new key by chance, the eviction of
  -- a bucket goes wrong whose first entry is due to be written and is followed by another one: it goes on
  -- with that entry of its list when it is freed.
  pub evict_bucket-freed :
      (c e : CacheEntry) (rest : List CacheEntry)
      → IsNew cfg ok prg cipher law stack rd new_key
      → is_full cfg prg cipher stack rd ≡ true
      → entries ≡ c ∷ e ∷ rest
      → will_write cfg prg cipher stack new_key time_after last_dirty_timeout last_access_timeout c
        ≡ true
      → run ≡ freed
  unfolding evict_bucket
  evict_bucket-freed c e rest fresh full list due =
      let both = subst (IsPlaced cfg.key_table_len i) list placed in
      let ((lt, at), ((lt', at'), others)) = both in
      let found : lookup c.sector rd.table ≡ some c =
        ap (λ b. find_cache_entry c.sector (rd.table.cache.map_cache_list b)) at
        ∙ ap (find_cache_entry c.sector) list
        ∙ find-new c.sector c (e ∷ rest) refl in
      rw list (
        evict_entries-freed cfg ok prg cipher law stack new_key time_after last_dirty_timeout
          last_access_timeout c.sector e.sector (sectors_of rest) rd c sound fresh full lt lt' found
          due)
