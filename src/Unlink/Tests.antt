-- ===== src/Unlink/Tests.antt =====
-- A key table of two sectors, of which the first is cached.
use mathlib.Core.Path.{subst}
use secure_deletion.Common.{
  ℕ, ◌+◌, ◌*◌, ◌^◌, ◌≤◌, ◌<◌, ◌≡◌, ◌≢◌, refl, sym, arith, inl, inr, ◌⊎◌, true, false, none, some,
  List, Option, ap, [], ◌∷◌, ◌==◌, if◌then◌else◌, ℕ-cases,
}
use secure_deletion.PprfTree.{init_master_key, evaluate_at_tag}
use secure_deletion.PprfTree.Sequence.{init_master_key-IsTree}
use secure_deletion.PprfTree.Contract.{IsPunctured}
use secure_deletion.MapCache.{cache_dirty, CacheEntry, find_cache_entry, delete_entry, new_entry}
use secure_deletion.KeyTable.{lookup, marked, bad_magic, read_new}
use secure_deletion.KeyTable.Rounds.{contents}
use secure_deletion.Unlink.{Config, Device, is_full, unlink_now, read_plain}
use secure_deletion.Unlink.Sound.{IsConfig, IsSound}
use secure_deletion.Unlink.Renew.{both, IsNew}
use secure_deletion.Unlink.Fixtures.{cipher, law, key_of, prg}
use secure_deletion.Unlink.Now.{
  unlink_now-deletes, unlink_now-refreshes, unlink_now-IsSound, old, kinds,
}

program : Unit {0}
unfolding find_cache_entry delete_entry init_master_key evaluate_at_tag
program = tt

-- Capacities with room for a puncture, and without.
abbrev config : (capacity : ℕ) → Config
config capacity = record { pprf_depth = 2; pprf_capacity = capacity; key_table_len = 2 }

config-IsConfig : (capacity : ℕ) → 1 ≤ capacity → capacity ≤ 100 → IsConfig (config capacity)
config-IsConfig capacity ge le = record {
  deep = omega arith;
  counted = omega arith;
  some_node = ge;
  tagged = omega arith;
}

abbrev keys : ℕ → ℕ → ℕ
keys sno entry = 100 * sno + entry

abbrev entry : CacheEntry
entry = record (new_entry 7 0 (marked 0 (keys 5))) { status = cache_dirty }

abbrev cached_in : ℕ → List CacheEntry
cached_in b = if b == 0 then entry ∷ [] else []

abbrev device : Device
device = record {
  pprf = init_master_key (key_of 0);
  tag_counter = 2;
  table = record {
    disk = λ t. marked t (keys t);
    cache = record { map_cache_list = cached_in; map_cache_count = 1 };
  };
}

cases : (t : ℕ) → t < 2 → (t ≡ 0) ⊎ (t ≡ 1)
cases t lt = elim (ℕ-cases t 0) [ inl e ↦ inl e | inr ne ↦ inr (omega arith) ]

each : (P : ℕ → Type 0) → P 0 → P 1 → (t : ℕ) → t < 2 → P t
each P p q t lt = elim (cases t lt) [ inl e ↦ subst P (sym e) p | inr e ↦ subst P (sym e) q ]

abbrev tag_of : Option CacheEntry → ℕ
tag_of none = 0
tag_of (some e) = e.map.tag

device-fits : device.pprf.size ≡ 1
unfolding program
device-fits = refl

device-cached :
    (t : ℕ)
    → t < 2
    → (e : CacheEntry) → lookup t device.table ≡ some e
    → e.map.tag ≡ (device.table.disk t).tag
unfolding program
device-cached =
    each (λ t. (e : CacheEntry) → lookup t device.table ≡ some e → e.map.tag ≡ t)
      (λ e l. ap tag_of (sym l)) (λ e l. let q : none ≡ some e = l in cc)

device-IsSound : (capacity : ℕ) → 1 ≤ capacity → IsSound (config capacity) device
unfolding program
device-IsSound capacity ge = record {
  tree = init_master_key-IsTree prg 2 (omega arith) (key_of 0);
  fits = ge;
  counted = omega arith;
  used = λ t lt. lt;
  distinct = λ t u lt lu ne. ne;
  spent = λ x lt unused. absurd (unused x lt refl);
  cached = λ t e lt l. device-cached t lt e l;
  once = each _ refl refl;
}

room : is_full (config 8) prg cipher (key_of 0) device ≡ false
unfolding program
room = refl

full : is_full (config 4) prg cipher (key_of 0) device ≡ true
unfolding program
full = refl

below : device.tag_counter < 2 ^ 2
below = omega arith

small : IsConfig (config 4)
small = config-IsConfig 4 (omega arith) (omega arith)

large : IsConfig (config 8)
large = config-IsConfig 8 (omega arith) (omega arith)

abbrev first : Config → Device
first cfg = unlink_now cfg prg cipher (key_of 0) (key_of 0) (key_of 1) device 9 3 77

abbrev second : Config → Device
second cfg = unlink_now cfg prg cipher (key_of 0) (key_of 0) (key_of 1) device 9 130 77

sound_4 : IsSound (config 4) device
sound_4 = device-IsSound 4 (omega arith)

sound_8 : IsSound (config 8) device
sound_8 = device-IsSound 8 (omega arith)

-- The inode 130 has the entry 3 of the second sector, which is not cached.
unlink_now-deletes_example :
    IsPunctured 2 (second (config 8)).pprf.nodes 1
    × ((read_plain (config 8) prg cipher (key_of 0) (second (config 8)) 1).entries 3 ≡ 77)
    × ((other : ℕ)
        → 3 ≢ other
        → (read_plain (config 8) prg cipher (key_of 0) (second (config 8)) 1).entries other
          ≡ (old
                (config 8)
                large
                prg
                cipher
                law
                (key_of 0)
                device
                sound_8
                (key_of 0)
                (key_of 1)
                9
                130
                77
                (omega arith)
                1).entries
              other)
    × ((t : ℕ)
        → t < 2
        → 1 ≢ t
        → read_plain (config 8) prg cipher (key_of 0) (second (config 8)) t
          ≡ read_plain (config 8) prg cipher (key_of 0) device t)
unlink_now-deletes_example =
    unlink_now-deletes (config 8) large prg cipher law (key_of 0) device sound_8 (key_of 0)
      (key_of 1) 9 130 77 (omega arith) room below

device-IsNew : IsNew (config 4) small prg cipher law (key_of 0) device (key_of 1)
unfolding program
device-IsNew =
    each
      (λ t.
        bad_magic (
          read_new (both (config 4) small prg cipher law (key_of 0) device (key_of 1)) t
            (marked t (keys t)))
        ≡ true)
      refl refl

-- The inode 3 has an entry of the first sector, which is cached.
unlink_now-refreshes_example :
    ((read_plain (config 4) prg cipher (key_of 0) (first (config 4)) 0).entries 3 ≡ 77)
    × ((other : ℕ)
        → 3 ≢ other
        → (read_plain (config 4) prg cipher (key_of 0) (first (config 4)) 0).entries other
          ≡ (old
                (config 4)
                small
                prg
                cipher
                law
                (key_of 0)
                device
                sound_4
                (key_of 0)
                (key_of 1)
                9
                3
                77
                (omega arith)
                0).entries
              other)
    × ((t : ℕ)
        → t < 2
        → 0 ≢ t
        → read_plain (config 4) prg cipher (key_of 0) (first (config 4)) t
          ≡ marked t
              (contents
                (kinds
                  (config 4)
                  small
                  prg
                  cipher
                  law
                  (key_of 0)
                  device
                  sound_4
                  (key_of 0)
                  (key_of 1)
                  9
                  3
                  77
                  (omega arith))
                t
                device.table).entries)
unlink_now-refreshes_example =
    unlink_now-refreshes (config 4) small prg cipher law (key_of 0) device sound_4 (key_of 0)
      (key_of 1) 9 3 77 (omega arith) device-IsNew full

unlink_now-IsSound_example : IsSound (config 4) (first (config 4))
unlink_now-IsSound_example =
    unlink_now-IsSound (config 4) small prg cipher law (key_of 0) device sound_4 (key_of 0)
      (key_of 1) 9 3 77 (omega arith) device-IsNew below

-- Two sectors with the two tags of the depth 1.
abbrev shallow : Config
shallow = record { pprf_depth = 1; pprf_capacity = 8; key_table_len = 2 }
