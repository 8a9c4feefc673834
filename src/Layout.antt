-- ===== src/Layout.antt =====
-- Where holepunch keeps its metadata: `do_create` of holepunch-userland/src/holepunch.c writes the
-- header, `eraser_ctr` of kernel_module/dm-holepunch-main.c checks it, and the kernel finds the
-- keys of the PPRF sectors in the two-level FKT. The refresh interval is a compile-time parameter
-- (HOLEPUNCH_REFRESH_INTERVAL, 1000 in the Makefile). Sizes are those of the non-debug builds.
pub mod Create
pub mod Depth
pub mod Slots
mod Tests
use secure_deletion.Common.{
  ℕ, zero, suc, ◌+◌, ◌-◌, ◌*◌, ◌/◌, ◌%◌, ◌^◌, Bool, true, false, Option, none, some, ◌==◌, ltb,
  if◌then◌else◌, u32_mod, u64_mod,
}

abbrev pub eraser_sector : ℕ
eraser_sector = 4096

abbrev pub eraser_header_len : ℕ
eraser_header_len = 1

abbrev pub hp_journal_len : ℕ
hp_journal_len = 64

-- A union of 32 bytes, aligned to 4, and a byte.
abbrev pub sizeof_keynode : ℕ
sizeof_keynode = 36

abbrev pub hp_key_per_sector : ℕ
hp_key_per_sector = (eraser_sector - 32) / 32

abbrev pub hp_pprf_per_sector : ℕ
hp_pprf_per_sector = eraser_sector / sizeof_keynode

-- HP_FKT_PER_SECTOR in user space ...
abbrev pub user_fkt_per_sector : ℕ
user_fkt_per_sector = eraser_sector / 32

-- ... and in the kernel.
abbrev pub hp_fkt_per_sector : ℕ
hp_fkt_per_sector = (eraser_sector - 16) / 32

-- `u64 div_ceil(u64 n, u64 d)`, for a d that is not zero.
unfoldable pub div_ceil : ℕ → ℕ → ℕ
div_ceil n d = ((n + d + u64_mod - 1) % u64_mod) / d

-- 32 - __builtin_clz(x): the number of binary digits of an unsigned int.
unfoldable pub digits_from : (fuel x : ℕ) → ℕ
digits_from zero x = 0
digits_from (suc n) x = if x == 0 then 0 else digits_from n (x / 2) + 1

unfoldable pub bit_length32 : ℕ → ℕ
unfolding digits_from
bit_length32 x = digits_from 32 (x % u32_mod)

-- The fields of `struct holepunch_header` that lay out the device.
pub record Header : Type 0 where
  pub journal_start : ℕ
  pub key_table_start : ℕ
  pub fkt_start : ℕ
  pub pprf_start : ℕ
  pub data_start : ℕ
  pub data_end : ℕ
  pub fkt_top_width : ℕ
  pub fkt_bottom_width : ℕ
  pub pprf_capacity : ℕ
  pub pprf_depth : ℕ
  pub in_use : ℕ

-- The sizes that `do_create` computes, one after the other.
unfoldable pub inode_count : (dev_size : ℕ) → ℕ
unfolding div_ceil
inode_count dev_size = div_ceil dev_size 16384

unfoldable pub key_table_len : (dev_size : ℕ) → ℕ
unfolding inode_count
key_table_len dev_size = div_ceil (inode_count dev_size) hp_key_per_sector

-- `pprf_depth` is a char.
unfoldable pub depth_for : (interval key_table_len : ℕ) → ℕ
depth_for interval key_table_len = bit_length32 (key_table_len + interval) % 256

-- `pprf_capacity` is a u32.
unfoldable pub capacity_for : (interval pprf_depth : ℕ) → ℕ
capacity_for interval pprf_depth = (interval * 2 * pprf_depth) % u32_mod

-- The regions, one after the other, and the widths of the two levels of the FKT.
unfoldable pub lay_out : (table depth capacity data_end : ℕ) → Header
unfolding div_ceil
lay_out table depth capacity data_end =
    let pprf_len = div_ceil capacity hp_pprf_per_sector in
    let bottom = div_ceil pprf_len user_fkt_per_sector in
    let top = div_ceil bottom user_fkt_per_sector in
    let key_table_start : ℕ = eraser_header_len + hp_journal_len in
    let fkt_start = (key_table_start + table) % u64_mod in
    let pprf_start = (fkt_start + bottom + top) % u64_mod in
    record {
      journal_start = eraser_header_len;
      key_table_start = key_table_start;
      fkt_start = fkt_start;
      pprf_start = pprf_start;
      data_start = (pprf_start + pprf_len) % u64_mod;
      data_end = data_end;
      fkt_top_width = top;
      fkt_bottom_width = bottom;
      pprf_capacity = capacity;
      pprf_depth = depth;
      in_use = 0;
    }

-- The layout part of `do_create`.
unfoldable pub create_header : (interval dev_size : ℕ) → Header
unfolding key_table_len depth_for capacity_for lay_out
create_header interval dev_size =
    let table = key_table_len dev_size in
    let depth = depth_for interval table in
    lay_out table depth (capacity_for interval depth) (dev_size / eraser_sector)

-- `ti->error` of the checks in `eraser_ctr`.
pub data HeaderError : Type 0 where
  bad_header_length bad_journal_length bad_fkt_length bad_pprf_length : HeaderError

-- The lengths that `eraser_ctr` derives.
pub record Lengths : Type 0 where
  pub key_table_len : ℕ
  pub fkt_len : ℕ
  pub pprf_len : ℕ
  pub data_len : ℕ

pub data Checked : Type 0 where
  accepted : Lengths → Checked
  rejected : HeaderError → Checked

-- u64 a - b
abbrev pub sub64 : ℕ → ℕ → ℕ
sub64 a b = (a + u64_mod - b) % u64_mod

-- The header checks of `eraser_ctr`, in order.
unfoldable pub check_header : Header → Checked
check_header h =
    if h.journal_start == eraser_header_len
    then (if sub64 h.key_table_start h.journal_start == hp_journal_len
        then (if (h.fkt_top_width + h.fkt_bottom_width) % u64_mod == sub64 h.pprf_start h.fkt_start
            then (if ltb (sub64 h.data_start h.pprf_start)
                  ((h.pprf_capacity * sizeof_keynode) % u64_mod / eraser_sector)
                then rejected bad_pprf_length
                else accepted (record {
                  key_table_len = sub64 h.fkt_start h.key_table_start;
                  fkt_len = sub64 h.pprf_start h.fkt_start;
                  pprf_len = sub64 h.data_start h.pprf_start;
                  data_len = sub64 h.data_end h.data_start;
                }))
            else rejected bad_fkt_length)
        else rejected bad_journal_length)
    else rejected bad_header_length

-- An entry of the in-memory FKT: its sector and its place there.
pub record Slot : Type 0 where
  pub sector : ℕ
  pub entry : ℕ

-- `holepunch_fkt_bottom_key`
unfoldable pub fkt_bottom_key : ℕ → Slot
fkt_bottom_key index = record {
  sector = index / hp_fkt_per_sector;
  entry = index % hp_fkt_per_sector;
}

-- `holepunch_pprf_sector_key`
unfoldable pub pprf_sector_key : Header → ℕ → Slot
pprf_sector_key h index = record {
  sector = index / hp_fkt_per_sector + h.fkt_top_width;
  entry = index % hp_fkt_per_sector;
}
