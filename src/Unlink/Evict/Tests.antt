-- ===== src/Unlink/Evict/Tests.antt =====
-- A bucket of two entries, of the sectors 0 and 1024.
use mathlib.Core.Path.{subst}
use secure_deletion.Common.{
  ℕ, zero, suc, ◌+◌, ◌-◌, ◌*◌, ◌≤◌, ◌<◌, ◌≡◌, ◌≢◌, refl, ap, sym, ◌∙◌, arith, inl, inr, Bool, true,
  false, none, some, Option, List, [], ◌∷◌, ◌==◌, ltb, if◌then◌else◌, ℕ-cases, Bool-cases, shl64,
}
use secure_deletion.PprfTree.{
  Block, init_master_key, evaluate_at_tag, evaluate_loop, check_bit_is_set,
}
use secure_deletion.PprfTree.Sequence.{init_master_key-IsTree}
use secure_deletion.PprfTree.Descent.{evaluate-descend, descend-keyleaf}
use secure_deletion.MapCache.{
  CacheEntry, cache_dirty, find_cache_entry, delete_entry, new_entry, bucket_of,
}
use secure_deletion.KeyTable.{lookup, marked, bad_magic}
use secure_deletion.Unlink.{Config, Device, is_full, pprf_key_new, key_at, evaluated}
use secure_deletion.Unlink.Sound.{IsConfig, IsSound}
use secure_deletion.Unlink.Renew.{IsNew}
use secure_deletion.Unlink.Fixtures.{cipher, law, key_of, prg}
use secure_deletion.Unlink.Evict.{going, freed, will_write, evict_bucket}
use secure_deletion.Unlink.Evict.Bucket.{IsPlaced, evict_bucket-IsSound, evict_bucket-freed}

program : Unit {0}
unfolding find_cache_entry delete_entry init_master_key evaluate_at_tag
program = tt

-- Capacities with room for two punctures, and for none.
abbrev config : (capacity : ℕ) → Config
config capacity = record { pprf_depth = 11; pprf_capacity = capacity; key_table_len = 1025 }

config-IsConfig : (capacity : ℕ) → 1 ≤ capacity → capacity ≤ 100 → IsConfig (config capacity)
config-IsConfig capacity ge le = record {
  deep = omega arith;
  counted = omega arith;
  some_node = ge;
  tagged = omega arith;
}

abbrev keys : ℕ → ℕ → ℕ
keys sno entry = 100 * sno + entry

-- Both entries are dirty since the time 0; the first is the one that is due first.
abbrev entry : (sector : ℕ) → CacheEntry
entry sector = record (new_entry 7 sector (marked sector (keys (sector + 5)))) {
  status = cache_dirty;
}

abbrev two : List CacheEntry
two = entry 0 ∷ entry 1024 ∷ []

abbrev device : Device
device = record {
  pprf = init_master_key (key_of 0);
  tag_counter = 1025;
  table = record {
    disk = λ t. marked t (keys t);
    cache = record { map_cache_list = λ b. if b == 0 then two else []; map_cache_count = 2 };
  };
}

-- A generator that repeats the key has it at every tag.
loop-same : (n tag depth : ℕ) (b : Block) → evaluate_loop prg n tag depth b ≡ b
unfolding evaluate_loop
loop-same zero tag depth b = refl
loop-same (suc n) tag depth b = elim (Bool-cases (check_bit_is_set tag depth)) [
  | inl e ↦ rw e (loop-same n tag (depth + 1) b)
  | inr e ↦ rw e (loop-same n tag (depth + 1) b)
]

new_key-same :
    (capacity t : ℕ)
    → key_at (config capacity) prg cipher (key_of 0) (pprf_key_new (key_of 1)) t ≡ key_of 1
unfolding program
new_key-same capacity t =
    let m = pprf_key_new (key_of 1) in
    let x = shl64 t (64 - 11) in
    ap (evaluated (key_of 0)) (
      evaluate-descend prg m 11 x
      ∙ descend-keyleaf prg m 11 x 0 0 refl
      ∙ ap some (loop-same 11 x 0 (key_of 1)))

-- The buckets but the first are empty, and in it are the sectors 0 and 1024.
each :
    (P : ℕ → Type 0)
    → P 0
    → P 1024
    → ((t : ℕ) → t < 1025 → (bucket_of t == 0) ≡ false → P t)
    → (t : ℕ) → t < 1025
    → P t
each P p q r t lt = elim (ℕ-cases t 0) [
  | inl e ↦ subst P (sym e) p
  | inr ne ↦ elim (ℕ-cases t 1024) [
    | inl e ↦ subst P (sym e) q
    | inr ne' ↦ let apart : bucket_of t ≢ 0 = omega arith in r t lt (ground arith)
  ]
]

abbrev tag_of : Option CacheEntry → ℕ
tag_of none = 0
tag_of (some e) = e.map.tag

device-cached :
    (t : ℕ)
    → t < 1025
    → (e : CacheEntry) → lookup t device.table ≡ some e
    → e.map.tag ≡ (device.table.disk t).tag
unfolding program
device-cached =
    each (λ t. (e : CacheEntry) → lookup t device.table ≡ some e → e.map.tag ≡ t)
      (λ e l. ap tag_of (sym l)) (λ e l. ap tag_of (sym l))
      (λ t lt empty e l. let q : none ≡ some e = rw empty at l in cc)

device-once :
    (t : ℕ)
    → t < 1025
    → find_cache_entry t (delete_entry t (device.table.cache.map_cache_list (bucket_of t))) ≡ none
unfolding program
device-once =
    each
      (λ t.
        find_cache_entry t (delete_entry t (device.table.cache.map_cache_list (bucket_of t)))
        ≡ none)
      refl refl (λ t lt empty. rw empty refl)

device-IsSound : (capacity : ℕ) → 1 ≤ capacity → IsSound (config capacity) device
unfolding program
device-IsSound capacity ge = record {
  tree = init_master_key-IsTree prg 11 (omega arith) (key_of 0);
  fits = ge;
  counted = omega arith;
  used = λ t lt. lt;
  distinct = λ t u lt lu ne. ne;
  spent = λ x lt unused. absurd (unused x lt refl);
  cached = λ t e lt l. device-cached t lt e l;
  once = device-once;
}

device-IsPlaced : IsPlaced 1025 0 two
device-IsPlaced = ((omega arith, refl), ((omega arith, refl), tt))

small : IsConfig (config 4)
small = config-IsConfig 4 (omega arith) (omega arith)

large : IsConfig (config 50)
large = config-IsConfig 50 (omega arith) (omega arith)

abbrev is_later : (a b : ℕ) → Bool
is_later a b = ltb b a

device-size : device.pprf.size ≡ 1
unfolding program
device-size = refl

-- Both entries are written, since they are dirty from the time 0, and dropped.
evict_bucket-IsSound_example :
    (after : Device) × (evict_bucket
        (config 50)
        prg
        cipher
        (key_of 0)
        (key_of 1)
        is_later
        5
        9
        0
        device
      ≡ going after)
    × IsSound (config 50) after
evict_bucket-IsSound_example =
    evict_bucket-IsSound (config 50) large prg cipher law (key_of 0) (key_of 1) is_later 5 9 0
      device (device-IsSound 50 (omega arith)) device-IsPlaced (omega (arith, device-size))
      (omega arith)

device-IsNew : IsNew (config 4) small prg cipher law (key_of 0) device (key_of 1)
device-IsNew t lt = ap (λ k. bad_magic (cipher.decrypt k t (marked t (keys t)))) (new_key-same 4 t)

full : is_full (config 4) prg cipher (key_of 0) device ≡ true
unfolding program
full = refl

due : will_write (config 4) prg cipher (key_of 0) (key_of 1) is_later 5 5 (entry 0) ≡ true
due = refl

evict_bucket-freed_example :
    evict_bucket (config 4) prg cipher (key_of 0) (key_of 1) is_later 5 5 0 device ≡ freed
evict_bucket-freed_example =
    evict_bucket-freed (config 4) small prg cipher law (key_of 0) (key_of 1) is_later 5 5 0 device
      (device-IsSound 4 (omega arith)) device-IsPlaced (entry 0) (entry 1024) [] device-IsNew full
      refl due
