-- ===== src/KeyStore/Tests.antt =====
-- A device with one sector on each level of the FKT and a cipher that remembers, and the theorems
-- there.
use secure_deletion.Common.{
  inl, ℕ, ◌+◌, ◌*◌, ◌<◌, ◌≡◌, refl, arith, ◌==◌, if◌then◌else◌, true, false, ◌&&◌, ap, ==_iff,
}
use secure_deletion.Layout.{Header, fkt_bottom_key, pprf_sector_key}
use secure_deletion.PprfTree.{Nodes, pprf_keyleaf, zero_block}
use secure_deletion.KeyStore.{
  Key, FktSector, SectorCipher, Store, write_pprf_key_sector, write_fkt_bottom_sector, refresh_fkt,
  write_punctured, do_master_rotation, read_fkt, read_pprf, read_pprf_from, read_bottom, read_top,
}
use secure_deletion.KeyStore.Sync.{IsLaidOut, IsSynced, IsSyncedBut}
use secure_deletion.KeyStore.Reset.{reset_keys}
use secure_deletion.KeyStore.Renewed.{reset_keys-IsSynced}
use secure_deletion.KeyStore.Write.{write_pprf_key_sector-refresh, write_pprf_key_sector-keep}
use secure_deletion.KeyStore.Range.{write_punctured-IsSynced, write_punctured-skips}
use secure_deletion.KeyStore.Rotation.{do_master_rotation-IsSynced}
use secure_deletion.KeyStore.Read.{restart, IsRestored, read-restart}

-- A sector of the disk: what was encrypted, with which key, for which sector.
data Sealed : Type 0 where
  sealed_fkt : Key → ℕ → FktSector → Sealed
  sealed_pprf : Key → ℕ → Nodes → Sealed

abbrev no_fkt : FktSector
no_fkt = record { pprf_size = 0; tag_counter = 0; entries = λ _. 0 }

abbrev no_nodes : Nodes
no_nodes _ = record { v = zero_block; type = pprf_keyleaf }

abbrev open_fkt : Key → ℕ → Sealed → FktSector
open_fkt k n (sealed_fkt k' n' x) = if k == k' && n == n' then x else no_fkt
open_fkt k n (sealed_pprf k' n' x) = no_fkt

abbrev open_pprf : Key → ℕ → Sealed → Nodes
open_pprf k n (sealed_fkt k' n' x) = no_nodes
open_pprf k n (sealed_pprf k' n' x) = if k == k' && n == n' then x else no_nodes

same : (k : ℕ) → (k == k) ≡ true
same k = (==_iff k k).1 refl

opens_fkt : (k n : ℕ) (x : FktSector) → open_fkt k n (sealed_fkt k n x) ≡ x
opens_fkt k n x = rw (same k, same n)

opens_pprf : (k n : ℕ) (x : Nodes) → open_pprf k n (sealed_pprf k n x) ≡ x
opens_pprf k n x = rw (same k, same n)

cipher : SectorCipher Sealed
cipher = record {
  seal_fkt = sealed_fkt;
  open_fkt = open_fkt;
  seal_pprf = sealed_pprf;
  open_pprf = open_pprf;
  open-seal_fkt = λ k n x.
      rw (opens_fkt k n x)
        (record { pprf_size = refl; tag_counter = refl; entries = λ j lt. refl });
  open-seal_pprf = λ k n x j lt. ap (λ m. m j) (opens_pprf k n x);
}

abbrev header : Header
header = record {
  journal_start = 1;
  key_table_start = 65;
  fkt_start = 66;
  pprf_start = 68;
  data_start = 70;
  data_end = 100;
  fkt_top_width = 1;
  fkt_bottom_width = 1;
  pprf_capacity = 226;
  pprf_depth = 2;
  in_use = 1;
}

-- 200 nodes, so that the key takes two sectors; nothing on the disk yet.
abbrev device : Store Sealed
device = record {
  hp_h = header;
  master_key = 11;
  pprf_fkt = λ i. record { pprf_size = 200; tag_counter = 5; entries = λ j. 1000 * i + j };
  pprf_key = λ i. record { v = record zero_block { il = i }; type = pprf_keyleaf };
  disk = λ _. sealed_fkt 0 0 no_fkt;
}

device-IsLaidOut : IsLaidOut header 2
device-IsLaidOut = record { wide = omega arith; slots = omega arith; apart = omega arith }

device-IsLaidOut_one : IsLaidOut header 1
device-IsLaidOut_one = record { wide = omega arith; slots = omega arith; apart = omega arith }

device-IsSyncedBut : IsSyncedBut cipher device 1 0 0 0
device-IsSyncedBut = record {
  tops = λ s lt n. absurd (omega arith);
  bottoms = λ b lt n. absurd (omega arith);
  nodes = λ n lt m. absurd (omega arith);
}

-- The first sector, with new keys, then the second with the key it has.
abbrev once : Store Sealed
once = write_pprf_key_sector cipher device 0 true 77 78

abbrev twice : Store Sealed
twice = write_pprf_key_sector cipher once 1 false 0 0

once-IsSynced : IsSynced cipher once 1
once-IsSynced =
    write_pprf_key_sector-refresh cipher device 1 device-IsLaidOut_one 0 (omega arith) 77 78
      device-IsSyncedBut

program : Unit {0}
unfolding write_pprf_key_sector write_fkt_bottom_sector refresh_fkt read_fkt read_pprf
    read_pprf_from read_bottom read_top cipher fkt_bottom_key pprf_sector_key
program = tt

once-header : once.hp_h ≡ header
unfolding program
once-header = refl

once-IsLaidOut : IsLaidOut once.hp_h 2
once-IsLaidOut = rw once-header device-IsLaidOut

once-IsSyncedBut : IsSyncedBut cipher once 2 once.hp_h.fkt_top_width once.hp_h.fkt_bottom_width 1
once-IsSyncedBut = record {
  tops = λ s lt n. once-IsSynced.tops s lt;
  bottoms = λ b lt n. once-IsSynced.bottoms b lt;
  nodes = λ n lt m. once-IsSynced.nodes n (omega arith);
}

twice-header : twice.hp_h ≡ header
unfolding program
twice-header = refl

twice-size : ◌≡◌ {A = ℕ} (twice.pprf_fkt 0).pprf_size 200
unfolding program
twice-size = refl

twice-IsLaidOut : IsLaidOut twice.hp_h 2
twice-IsLaidOut = rw twice-header device-IsLaidOut

twice-IsSynced : IsSynced cipher twice 2
twice-IsSynced =
    write_pprf_key_sector-keep cipher once 2 once-IsLaidOut 1 (omega arith) 0 0 once-IsSyncedBut

top_lt : 0 < twice.hp_h.fkt_top_width
unfolding program
top_lt = omega arith

read-restart_example :
    IsRestored twice (read_pprf cipher (read_fkt cipher (restart twice (λ _. no_fkt) no_nodes)))
read-restart_example =
    read-restart cipher twice 2 twice-IsLaidOut twice-IsSynced (λ _. no_fkt) no_nodes top_lt
      (omega (arith, twice-size))

-- The key read back, at a node of the second sector.
read_node :
    ◌≡◌ {A = ℕ}
      ((read_pprf cipher (read_fkt cipher (restart twice (λ _. no_fkt) no_nodes))).pprf_key
        150).v.il
      150
unfolding program
read_node = refl

write_punctured-IsSynced_example : IsSynced cipher (write_punctured cipher twice 0 1 1 90 91) 2
write_punctured-IsSynced_example =
    write_punctured-IsSynced cipher twice 2 twice-IsLaidOut 0 1 1 90 91 (omega arith) (omega arith)
      (omega arith) (inl (omega arith)) (λ s lt n. twice-IsSynced.tops s lt)
      (λ b lt n. twice-IsSynced.bottoms b lt) (λ n lt m. twice-IsSynced.nodes n (omega arith))

write_punctured-skips_example :
    (write_punctured cipher twice 0 0 1 90 91).disk (twice.hp_h.pprf_start + 1)
    ≡ twice.disk (twice.hp_h.pprf_start + 1)
write_punctured-skips_example =
    write_punctured-skips cipher twice 2 twice-IsLaidOut 0 0 1 90 91 (omega arith) refl
      (omega arith)

do_master_rotation-IsSynced_example : IsSynced cipher (do_master_rotation cipher twice 12) 2
do_master_rotation-IsSynced_example =
    do_master_rotation-IsSynced cipher 12 twice 2 twice-IsLaidOut twice-IsSynced.bottoms
      twice-IsSynced.nodes

-- Any sectors stand for random ones.
reset_keys-IsSynced_example :
    IsSynced cipher (reset_keys cipher 517 device.disk (no_nodes 0) (no_nodes 1) device) 1
reset_keys-IsSynced_example =
    reset_keys-IsSynced cipher 517 device.disk (no_nodes 0) (no_nodes 1) device device-IsLaidOut_one
