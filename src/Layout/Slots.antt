-- ===== src/Layout/Slots.antt =====
-- Which keys of PPRF sectors have a place in the FKT that was laid out.
use secure_deletion.Common.{ℕ, ◌+◌, ◌*◌, ◌/◌, ◌^◌, ◌≤◌, ◌<◌, ◌≡◌, ◌↔◌, refl, arith}
use secure_deletion.Layout.Create.{create-bottom, create-pprf_lt}
use secure_deletion.Layout.{
  Header, div_ceil, pprf_sector_key, create_header, hp_pprf_per_sector, user_fkt_per_sector,
}

-- The key of a PPRF sector has its place inside the FKT exactly when the sector's index is below
-- 127 times the width of the lower level.
pprf_sector_key-in_range :
    (h : Header) (index : ℕ)
    → ((pprf_sector_key h index).sector < h.fkt_top_width + h.fkt_bottom_width)
      ↔ (index < 127 * h.fkt_bottom_width)
unfolding pprf_sector_key
pprf_sector_key-in_range h index = (λ p. omega arith, λ p. omega arith)

slot_sector :
    (h : Header) (index : ℕ) → (pprf_sector_key h index).sector ≡ index / 127 + h.fkt_top_width
unfolding pprf_sector_key
slot_sector h index = refl

user_width : (w k : ℕ) → w ≤ 128 * k → w < 2 ^ 32 → div_ceil w user_fkt_per_sector ≤ k
unfolding div_ceil
user_width w k below small = omega arith

bottom_width :
    (interval dev_size k : ℕ)
    → div_ceil (create_header interval dev_size).pprf_capacity hp_pprf_per_sector ≤ 128 * k
    → (create_header interval dev_size).fkt_bottom_width ≤ k
bottom_width interval dev_size k below = rw (create-bottom interval dev_size) (
    user_width (div_ceil (create_header interval dev_size).pprf_capacity hp_pprf_per_sector) k below
      (create-pprf_lt interval dev_size))

-- The two sides disagree on how many keys a sector of the FKT holds: 128 in `do_create`, 127 in
-- the kernel. When the PPRF region has more than 127 k sectors and at most 128 k, the key of
-- some sector of it has no place in the FKT: `holepunch_pprf_sector_key` names a sector past its end.
pub some_slot-past_fkt :
    (interval dev_size k : ℕ)
    → 127 * k < div_ceil (create_header interval dev_size).pprf_capacity hp_pprf_per_sector
    → div_ceil (create_header interval dev_size).pprf_capacity hp_pprf_per_sector ≤ 128 * k
    → (index : ℕ) × (index
        < div_ceil (create_header interval dev_size).pprf_capacity hp_pprf_per_sector)
      × ((create_header interval dev_size).fkt_top_width
            + (create_header interval dev_size).fkt_bottom_width
          ≤ (pprf_sector_key (create_header interval dev_size) index).sector)
some_slot-past_fkt interval dev_size k above below =
    let h = create_header interval dev_size in
    let width = bottom_width interval dev_size k below in
    (127 * h.fkt_bottom_width, omega arith, omega (arith, slot_sector h (127 * h.fkt_bottom_width)))
