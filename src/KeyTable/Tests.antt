-- ===== src/KeyTable/Tests.antt =====
-- A table of three sectors, of which the first is rotated.
use mathlib.Core.Path.{subst}
use secure_deletion.Common.{
  ℕ, ◌+◌, ◌*◌, ◌≤◌, ◌<◌, ◌≡◌, refl, sym, arith, inr, Bool, true, false, none, List, [], ◌==◌,
  if◌then◌else◌,
}
use secure_deletion.PprfTree.{Block}
use secure_deletion.MapCache.{FilekeySector, CacheEntry, find_cache_entry, drop_map_cache}
use secure_deletion.KeyTable.{
  Table, Ciphers, lookup, marked, sealed, load, rotate_rest, rotate_from, rotate_table,
}
use secure_deletion.KeyTable.Rounds.{IsCipher}
use secure_deletion.KeyTable.Resume.{IsRotated, IsWaiting}
use secure_deletion.KeyTable.Crash.{crash, rotate_table-sealed, rotate_table-resumed}

program : Unit {0}
unfolding load rotate_rest rotate_from rotate_table find_cache_entry drop_map_cache
program = tt

-- A cipher that swaps the magic words, unless the key is 0.
abbrev swap_unless : Bool → FilekeySector → FilekeySector
swap_unless true x = x
swap_unless false x = record x { magic1 = x.magic2; magic2 = x.magic1 }

swap_twice : (b : Bool) (x : FilekeySector) → swap_unless b (swap_unless b x) ≡ x
swap_twice true x = refl
swap_twice false x = refl

swap-tag : (b : Bool) (x : FilekeySector) → (swap_unless b x).tag ≡ x.tag
swap-tag true x = refl
swap-tag false x = refl

abbrev key_of : ℕ → Block
key_of n = record { il = n; ir = 0; rest = [] }

-- The old PPRF gives the key 0, the new one 1.
abbrev ciphers : Ciphers
ciphers = record {
  encrypt = λ k sno. swap_unless (k.il == 0);
  decrypt = λ k sno. swap_unless (k.il == 0);
  old_key = λ tag. key_of 0;
  new_key = λ tag. key_of 1;
}

law : IsCipher ciphers
law = record {
  decrypt-encrypt = λ k sno x. swap_twice (k.il == 0) x;
  encrypt-decrypt = λ k sno x. swap_twice (k.il == 0) x;
  tag-encrypt = λ k sno x. swap-tag (k.il == 0) x;
  tag-decrypt = λ k sno x. swap-tag (k.il == 0) x;
}

abbrev keys : ℕ → ℕ → ℕ
keys sno entry = 100 * sno + entry

-- The first sector is rotated, the others have old tags and the old key; nothing is cached.
abbrev nothing : List CacheEntry
nothing = []

abbrev table : Table
table = record {
  disk = λ t.
      if t == 0 then sealed ciphers 0 (keys 0) else record (marked t (keys t)) { tag = 50 + t };
  cache = record { map_cache_list = λ b. nothing; map_cache_count = 0 };
}

table-uncached : (u : ℕ) → lookup u table ≡ none
unfolding program
table-uncached u = refl

table-IsRotated : (u : ℕ) → u < 1 → IsRotated ciphers u (keys u) table
unfolding program
table-IsRotated u lt =
    let e : u ≡ 0 = omega arith in
    subst (λ v. IsRotated ciphers v (keys v) table) (sym e) (refl, refl)

table-IsWaiting : (u : ℕ) → 1 ≤ u → u < 3 → IsWaiting ciphers u (keys u) table
unfolding program
table-IsWaiting u ge lt = let e : (u == 0) ≡ false = ground arith in rw e (refl, inr (refl, refl))

rotate_table-sealed_example :
    (rotate_table ciphers false 3 table).disk 2 ≡ sealed ciphers 2 (keys 2)
rotate_table-sealed_example =
    rotate_table-sealed ciphers keys table 1 3 2 law table-IsRotated table-IsWaiting (omega arith)

rotate_table-resumed_example :
    (rotate_table ciphers false 3 (crash (rotate_table ciphers false 2 table))).disk 2
    ≡ sealed ciphers 2 (keys 2)
rotate_table-resumed_example =
    rotate_table-resumed ciphers keys table 1 2 3 2 law (omega arith) table-IsRotated
      table-IsWaiting table-uncached (omega arith)

-- The keys of the last sector.
last_key : ◌≡◌ {A = ℕ} (((rotate_table ciphers false 3 table).disk 2).entries 7) 207
unfolding program
last_key = refl
