-- ===== src/MapCache/Lists.antt =====
-- Searching, changing and deleting in a bucket.
use secure_deletion.Common.{
  ℕ, ◌≡◌, refl, ◌≢◌, arith, Option, none, some, List, [], ◌∷◌, ◌==◌, Bool-cases, inl, inr, true,
  false,
}
use secure_deletion.MapCache.{CacheEntry, find_cache_entry, change_entry}

-- A change that leaves the sector's number alone.
abbrev pub KeepsSector : (CacheEntry → CacheEntry) → Type 0
KeepsSector f = (c : CacheEntry) → (f c).sector ≡ c.sector

abbrev pub apply_some : (CacheEntry → CacheEntry) → Option CacheEntry → Option CacheEntry
apply_some f none = none
apply_some f (some c) = some (f c)

pub find-change :
    (sector : ℕ) (f : CacheEntry → CacheEntry) (l : List CacheEntry)
    → KeepsSector f
    → find_cache_entry sector (change_entry sector f l) ≡ apply_some f (find_cache_entry sector l)
unfolding find_cache_entry change_entry
find-change sector f [] keeps = refl
find-change sector f (c ∷ cs) keeps = elim (Bool-cases (c.sector == sector)) [
  | inl e ↦ let k : ((f c).sector == sector) ≡ true = rw (keeps c) e in rw (e, k)
  | inr e ↦ rw (e, e) (find-change sector f cs keeps)
]

pub find-change_ne :
    (sector t : ℕ) (f : CacheEntry → CacheEntry) (l : List CacheEntry)
    → KeepsSector f
    → sector ≢ t
    → find_cache_entry t (change_entry sector f l) ≡ find_cache_entry t l
unfolding find_cache_entry change_entry
find-change_ne sector t f [] keeps ne = refl
find-change_ne sector t f (c ∷ cs) keeps ne = elim (Bool-cases (c.sector == sector)) [
  | inl e ↦
      let a : (c.sector == t) ≡ false = ground arith in
      let k : ((f c).sector == t) ≡ false = rw (keeps c) a in rw (e, a, k)
  | inr e ↦ rw (e, find-change_ne sector t f cs keeps ne)
]

pub find-new :
    (sector : ℕ) (c : CacheEntry) (l : List CacheEntry)
    → c.sector ≡ sector
    → find_cache_entry sector (c ∷ l) ≡ some c
unfolding find_cache_entry
find-new sector c l e = let a : (c.sector == sector) ≡ true = ground arith in rw a

pub find-new_ne :
    (sector : ℕ) (c : CacheEntry) (l : List CacheEntry)
    → c.sector ≢ sector
    → find_cache_entry sector (c ∷ l) ≡ find_cache_entry sector l
unfolding find_cache_entry
find-new_ne sector c l e = let a : (c.sector == sector) ≡ false = ground arith in rw a
