-- ===== src/Layout/Create.antt =====
-- What `do_create` writes is what `eraser_ctr` accepts.
use secure_deletion.Common.{ℕ, ◌+◌, ◌/◌, ◌^◌, ◌<◌, ◌≡◌, refl, arith}
use secure_deletion.Layout.{
  div_ceil, inode_count, key_table_len, depth_for, capacity_for, Header, create_header, Lengths,
  accepted, check_header, lay_out, sub64, hp_pprf_per_sector, user_fkt_per_sector, hp_journal_len,
  eraser_sector, hp_key_per_sector,
}

-- The sizes fit their words.
pub key_table_len-lt : (dev_size : ℕ) → dev_size < 2 ^ 63 → key_table_len dev_size < 2 ^ 43
unfolding key_table_len inode_count div_ceil
key_table_len-lt dev_size h = omega arith

pub capacity_for-lt : (interval depth : ℕ) → capacity_for interval depth < 2 ^ 32
unfolding capacity_for
capacity_for-lt interval depth = omega arith

-- The checks of the constructor accept any layout of `do_create`, and derive its lengths.
lay_out-accepted :
    (table depth capacity data_end : ℕ)
    → table < 2 ^ 43
    → capacity < 2 ^ 32
    → check_header (lay_out table depth capacity data_end)
      ≡ accepted (record {
        key_table_len = table;
        fkt_len =
            div_ceil (div_ceil capacity hp_pprf_per_sector) user_fkt_per_sector
            + div_ceil
                (div_ceil (div_ceil capacity hp_pprf_per_sector) user_fkt_per_sector)
                user_fkt_per_sector;
        pprf_len = div_ceil capacity hp_pprf_per_sector;
        data_len = sub64 data_end (lay_out table depth capacity data_end).data_start;
      })
unfolding check_header lay_out div_ceil
lay_out-accepted table depth capacity data_end ht hc = ground arith

module _ (table depth capacity data_end : ℕ) where
  lay_out-widths :
      div_ceil (div_ceil capacity hp_pprf_per_sector) user_fkt_per_sector
        + div_ceil
            (div_ceil (div_ceil capacity hp_pprf_per_sector) user_fkt_per_sector)
            user_fkt_per_sector
      ≡ (lay_out table depth capacity data_end).fkt_top_width
        + (lay_out table depth capacity data_end).fkt_bottom_width
  unfolding lay_out
  lay_out-widths = omega arith

  lay_out-capacity :
      div_ceil capacity hp_pprf_per_sector
      ≡ div_ceil (lay_out table depth capacity data_end).pprf_capacity hp_pprf_per_sector
  unfolding lay_out
  lay_out-capacity = refl

table_covers :
    (dev_size ino : ℕ)
    → dev_size < 2 ^ 63
    → ino < inode_count dev_size
    → ino / hp_key_per_sector < key_table_len dev_size
unfolding key_table_len inode_count div_ceil
table_covers dev_size ino h lt = omega arith

region_covers :
    (capacity node : ℕ)
    → capacity < 2 ^ 32
    → node < capacity
    → node / hp_pprf_per_sector < div_ceil capacity hp_pprf_per_sector
unfolding div_ceil
region_covers capacity node h lt = omega arith

pub create-capacity_lt :
    (interval dev_size : ℕ) → (create_header interval dev_size).pprf_capacity < 2 ^ 32
unfolding create_header lay_out
create-capacity_lt interval dev_size =
    capacity_for-lt interval (depth_for interval (key_table_len dev_size))

-- A header written by `do_create` for a device of less than 2^63 bytes passes the checks of
-- `eraser_ctr`, which reads back the lengths of the key table, of the FKT and of the PPRF region
-- that `do_create` computed.
pub create-accepted :
    (interval dev_size : ℕ)
    → dev_size < 2 ^ 63
    → (lengths : Lengths) × (check_header (create_header interval dev_size) ≡ accepted lengths)
      × (lengths.key_table_len ≡ key_table_len dev_size)
      × (lengths.fkt_len
          ≡ (create_header interval dev_size).fkt_top_width
            + (create_header interval dev_size).fkt_bottom_width)
      × (lengths.pprf_len
          ≡ div_ceil (create_header interval dev_size).pprf_capacity hp_pprf_per_sector)
unfolding create_header
create-accepted interval dev_size h =
    let depth = depth_for interval (key_table_len dev_size) in
    (
      _,
      lay_out-accepted (key_table_len dev_size) depth (capacity_for interval depth)
          (dev_size / eraser_sector) (key_table_len-lt dev_size h) (capacity_for-lt interval depth),
      refl,
      lay_out-widths (key_table_len dev_size) depth (capacity_for interval depth)
          (dev_size / eraser_sector),
      lay_out-capacity (key_table_len dev_size) depth (capacity_for interval depth)
          (dev_size / eraser_sector),
    )

-- Where the regions of a header of `do_create` lie.
pub record IsConsecutive (h : Header) (table pprf_len : ℕ) : Type 0 where
  pub journal : h.journal_start ≡ 1
  pub key_table : h.key_table_start ≡ h.journal_start + hp_journal_len
  pub fkt : h.fkt_start ≡ h.key_table_start + table
  pub pprf : h.pprf_start ≡ h.fkt_start + (h.fkt_top_width + h.fkt_bottom_width)
  pub start : h.data_start ≡ h.pprf_start + pprf_len

lay_out-IsConsecutive :
    (table depth capacity data_end : ℕ)
    → table < 2 ^ 43
    → capacity < 2 ^ 32
    → IsConsecutive
        (lay_out table depth capacity data_end)
        table
        (div_ceil capacity hp_pprf_per_sector)
unfolding lay_out div_ceil
lay_out-IsConsecutive table depth capacity data_end ht hc = ground arith

-- The regions that `do_create` lays out on a device of less than 2^63 bytes follow one another
-- without a gap or an overlap: header, journal, key table, FKT, PPRF key, data.
create-IsConsecutive :
    (interval dev_size : ℕ)
    → dev_size < 2 ^ 63
    → IsConsecutive
        (create_header interval dev_size)
        (key_table_len dev_size)
        (div_ceil (create_header interval dev_size).pprf_capacity hp_pprf_per_sector)
unfolding create_header
create-IsConsecutive interval dev_size h =
    let depth = depth_for interval (key_table_len dev_size) in
    (lay_out-IsConsecutive (key_table_len dev_size) depth (capacity_for interval depth)
      (dev_size / eraser_sector) (key_table_len-lt dev_size h) (capacity_for-lt interval depth))

-- On a device of less than 2^63 bytes the sector of every inode's key, for the inodes that
-- `do_create` counts, lies in the key table, before the FKT.
inode-in-table :
    (interval dev_size ino : ℕ)
    → dev_size < 2 ^ 63
    → ino < inode_count dev_size
    → (create_header interval dev_size).key_table_start + ino / hp_key_per_sector
      < (create_header interval dev_size).fkt_start
inode-in-table interval dev_size ino h lt =
    let c = create-IsConsecutive interval dev_size h in
    omega (arith, c.fkt, table_covers dev_size ino h lt)

-- On a device of less than 2^63 bytes the sector of every node of the PPRF key, up to its capacity,
-- lies in the PPRF region, before the data.
node-in-pprf :
    (interval dev_size node : ℕ)
    → dev_size < 2 ^ 63
    → node < (create_header interval dev_size).pprf_capacity
    → (create_header interval dev_size).pprf_start + node / hp_pprf_per_sector
      < (create_header interval dev_size).data_start
node-in-pprf interval dev_size node h lt =
    let c = create-IsConsecutive interval dev_size h in
    omega (
      arith,
      c.start,
      region_covers (create_header interval dev_size).pprf_capacity node
          (create-capacity_lt interval dev_size) lt,
    )

pub create-bottom :
    (interval dev_size : ℕ)
    → (create_header interval dev_size).fkt_bottom_width
      ≡ div_ceil
          (div_ceil (create_header interval dev_size).pprf_capacity hp_pprf_per_sector)
          user_fkt_per_sector
unfolding create_header lay_out
create-bottom interval dev_size = refl

capacity-pprf_lt :
    (capacity : ℕ) → capacity < 2 ^ 32 → div_ceil capacity hp_pprf_per_sector < 2 ^ 32
unfolding div_ceil
capacity-pprf_lt capacity h = omega arith

pub create-pprf_lt :
    (interval dev_size : ℕ)
    → div_ceil (create_header interval dev_size).pprf_capacity hp_pprf_per_sector < 2 ^ 32
create-pprf_lt interval dev_size = capacity-pprf_lt _ (create-capacity_lt interval dev_size)
