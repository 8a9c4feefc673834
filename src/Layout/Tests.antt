-- ===== src/Layout/Tests.antt =====
-- The layout of a device of 1 GiB, and the theorems there.
use secure_deletion.Common.{ℕ, ◌+◌, ◌*◌, ◌^◌, ◌≤◌, ◌<◌, ◌≡◌, refl, arith}
use secure_deletion.Layout.{
  div_ceil, key_table_len, bit_length32, create_header, Lengths, accepted, check_header,
  hp_pprf_per_sector, pprf_sector_key,
}
use secure_deletion.Layout.Create.{create-accepted}
use secure_deletion.Layout.Slots.{some_slot-past_fkt}

abbrev dev_size : ℕ
dev_size = 2 ^ 30

program : Unit {0}
unfolding create_header bit_length32 check_header
program = tt

table_len : ◌≡◌ {A = ℕ} (key_table_len dev_size) 517
unfolding program
table_len = refl

depth : ◌≡◌ {A = ℕ} (create_header 1000 dev_size).pprf_depth 11
unfolding program
depth = refl

create-accepted_example :
    (lengths : Lengths) × (check_header (create_header 1000 dev_size) ≡ accepted lengths)
    × (lengths.key_table_len ≡ key_table_len dev_size)
    × (lengths.fkt_len
        ≡ (create_header 1000 dev_size).fkt_top_width
          + (create_header 1000 dev_size).fkt_bottom_width)
    × (lengths.pprf_len ≡ div_ceil (create_header 1000 dev_size).pprf_capacity hp_pprf_per_sector)
create-accepted_example = create-accepted 1000 dev_size (omega arith)

-- With a refresh interval of 1308 the PPRF region has 255 sectors.
pprf_above : 127 * 2 < div_ceil (create_header 1308 dev_size).pprf_capacity hp_pprf_per_sector
unfolding program
pprf_above = omega arith

pprf_below : div_ceil (create_header 1308 dev_size).pprf_capacity hp_pprf_per_sector ≤ 128 * 2
unfolding program
pprf_below = omega arith

some_slot-past_fkt_example :
    (index : ℕ) × (index < div_ceil (create_header 1308 dev_size).pprf_capacity hp_pprf_per_sector)
    × ((create_header 1308 dev_size).fkt_top_width + (create_header 1308 dev_size).fkt_bottom_width
        ≤ (pprf_sector_key (create_header 1308 dev_size) index).sector)
some_slot-past_fkt_example = some_slot-past_fkt 1308 dev_size 2 pprf_above pprf_below
