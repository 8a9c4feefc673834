-- ===== src/Unlink/Persist.antt =====
-- The deletion of an entry's old keys while the PPRF key has room.
use secure_deletion.Common.{
  ℕ, ◌+◌, ◌-◌, ◌*◌, ◌^◌, ◌≤◌, ◌<◌, ◌≡◌, ◌≢◌, refl, arith, ◌==◌, true, false, Option, none, some, ap,
  sym, ◌∙◌, inl, inr, ℕ-cases, u32_mod, pow_add, pow_pos,
}
use mathlib.Core.Path.{subst}
use native.Mathlib.Nat.{mod-eq_of_lt}
use secure_deletion.PprfTree.{Block, puncture_at_tag}
use secure_deletion.PprfTree.Shape.{IsTree}
use secure_deletion.PprfTree.Contract.{
  IsPunctured, puncture_at_tag-IsTree, puncture_at_tag-size, puncture_at_tag-IsPunctured,
  IsPunctured-puncture, evaluate-puncture_ne,
}
use secure_deletion.MapCache.{FilekeySector, CacheEntry}
use secure_deletion.MapCache.Lists.{apply_some}
use secure_deletion.KeyTable.{lookup}
use secure_deletion.KeyTable.Emptied.{Once}
use secure_deletion.Unlink.{
  Config, FileCipher, Device, key_at, evaluated, persisted, read_plain, write_key_table_sector,
  puncture_old, puncture_entry, is_full,
}
use secure_deletion.Unlink.Sound.{IsFileCipher, IsConfig, IsSound}
use secure_deletion.Unlink.Entry.{lookup-change, lookup-change_ne, change-Once}

pow-le : (d : ℕ) → d ≤ 63 → 2 ^ d ≤ 2 ^ 63
pow-le d h =
    let e : d + (63 - d) ≡ 63 = omega arith in
    let s : 2 ^ 63 ≡ 2 ^ d * 2 ^ (63 - d) = rw e at (pow_add d (63 - d)) in
    let p = pow_pos (63 - d) in rw s (grind arith)

module _ (cfg : Config) (ok : IsConfig cfg) (prg : Block → Block × Block) (cipher : FileCipher)
    (law : IsFileCipher cipher) (stack : Block) (rd : Device) (sound : IsSound cfg rd)
    (c : CacheEntry) (at : lookup c.sector rd.table ≡ some c)
    (within : c.sector < cfg.key_table_len) (room : is_full cfg prg cipher stack rd ≡ false)
    (free : rd.tag_counter < 2 ^ cfg.pprf_depth) where
  open cfg use {pprf_depth, key_table_len}

  abbrev after : Device
  after = puncture_entry cfg prg cipher stack rd c

  -- The sector's contents, under the next tag.
  abbrev pub renewed_map : FilekeySector
  renewed_map = record (c.map) { tag = rd.tag_counter }

  deep : pprf_depth ≤ 64
  deep = omega (arith, ok.deep)

  no_wrap : rd.pprf.size + 2 * pprf_depth < u32_mod
  no_wrap = omega (arith, ok.counted, sound.fits)

  has_room : rd.pprf.size + 2 * pprf_depth ≤ cfg.pprf_capacity
  has_room = let w = mod-eq_of_lt no_wrap in ground arith

  old : c.map.tag ≡ (rd.table.disk c.sector).tag
  old = sound.cached c.sector c within at

  old-lt : c.map.tag < 2 ^ pprf_depth
  old-lt = omega (arith, old, sound.used c.sector within, free)

  pub counter : after.tag_counter ≡ rd.tag_counter + 1
  unfolding puncture_entry write_key_table_sector
  counter = omega (arith, pow-le pprf_depth ok.deep, free)

  pub pprf-after : after.pprf ≡ (puncture_at_tag prg rd.pprf pprf_depth c.map.tag).1
  unfolding puncture_entry write_key_table_sector
  pprf-after = refl

  disk-here :
      after.table.disk c.sector
      ≡ cipher.encrypt
          (key_at cfg prg cipher stack after.pprf.nodes rd.tag_counter)
          c.sector
          renewed_map
  unfolding puncture_entry write_key_table_sector
  disk-here = let t : (c.sector == c.sector) ≡ true = ground arith in rw t

  disk-else : (t : ℕ) → c.sector ≢ t → after.table.disk t ≡ rd.table.disk t
  unfolding puncture_entry write_key_table_sector
  disk-else t ne = let e : (c.sector == t) ≡ false = ground arith in rw e

  tag-here : (after.table.disk c.sector).tag ≡ rd.tag_counter
  tag-here = ap (λ x. x.tag) disk-here ∙ law.tag-encrypt _ c.sector renewed_map

  tag-at : (t : ℕ) → c.sector ≡ t → (after.table.disk t).tag ≡ rd.tag_counter
  tag-at t e = ap (λ u. (after.table.disk u).tag) (sym e) ∙ tag-here

  pub cached-here : lookup c.sector after.table ≡ some (persisted renewed_map c)
  unfolding puncture_entry
  cached-here =
      lookup-change
        (write_key_table_sector cfg prg cipher stack
          (puncture_old cfg prg cipher stack rd c.map.tag) renewed_map c.sector)
        c.sector (persisted renewed_map) (λ e. refl)
      ∙ ap (apply_some (persisted renewed_map)) at

  pub cached-else : (t : ℕ) → c.sector ≢ t → lookup t after.table ≡ lookup t rd.table
  unfolding puncture_entry
  cached-else t ne =
      lookup-change_ne
        (write_key_table_sector cfg prg cipher stack
          (puncture_old cfg prg cipher stack rd c.map.tag) renewed_map c.sector)
        c.sector (persisted renewed_map) (λ e. refl) t ne

  tag-else : (t : ℕ) → c.sector ≢ t → (after.table.disk t).tag ≡ (rd.table.disk t).tag
  tag-else t ne = ap (λ x. x.tag) (disk-else t ne)

  -- Other tags in use keep their keys.
  key-else :
      (x : ℕ)
      → x < 2 ^ pprf_depth
      → x ≢ c.map.tag
      → key_at cfg prg cipher stack after.pprf.nodes x ≡ key_at cfg prg cipher stack rd.pprf.nodes x
  key-else x h ne =
      ap (λ p. key_at cfg prg cipher stack p.nodes x) pprf-after
      ∙ ap (evaluated stack) (
          evaluate-puncture_ne prg pprf_depth deep rd.pprf sound.tree c.map.tag old-lt no_wrap x h
            ne)

  pub size-after : after.pprf.size ≤ rd.pprf.size + 2 * pprf_depth
  size-after =
      let s =
        (puncture_at_tag-size prg pprf_depth deep rd.pprf sound.tree c.map.tag old-lt no_wrap).1 in
      omega (arith, s, ap (λ p. p.size) pprf-after)

  pub read-here : read_plain cfg prg cipher stack after c.sector ≡ renewed_map
  read-here =
      let key = key_at cfg prg cipher stack after.pprf.nodes in
      ap (λ x. cipher.decrypt (key x.tag) c.sector x) disk-here
      ∙ ap
          (λ g.
            cipher.decrypt (key g) c.sector
              (cipher.encrypt (key rd.tag_counter) c.sector renewed_map))
          (law.tag-encrypt (key rd.tag_counter) c.sector renewed_map)
      ∙ law.decrypt-encrypt (key rd.tag_counter) c.sector renewed_map

  pub read-else :
      (t : ℕ)
      → t < key_table_len
      → c.sector ≢ t
      → read_plain cfg prg cipher stack after t ≡ read_plain cfg prg cipher stack rd t
  read-else t lt ne =
      let x = rd.table.disk t in
      ap (λ y. cipher.decrypt (key_at cfg prg cipher stack after.pprf.nodes y.tag) t y)
        (disk-else t ne)
      ∙ ap (λ k. cipher.decrypt k t x)
          (key-else x.tag (omega (arith, sound.used t lt, sound.counted))
            (λ e. sound.distinct c.sector t within lt ne (sym old ∙ sym e)))

  pub old-IsPunctured : IsPunctured pprf_depth after.pprf.nodes c.map.tag
  old-IsPunctured =
      subst (λ p. IsPunctured pprf_depth p.nodes c.map.tag) (sym pprf-after)
        (puncture_at_tag-IsPunctured prg pprf_depth deep rd.pprf sound.tree c.map.tag old-lt
          no_wrap)

  -- A tag below the counter that no sector has is punctured.
  spent-after :
      (x : ℕ)
      → x < after.tag_counter
      → ((t : ℕ) → t < key_table_len → (after.table.disk t).tag ≢ x)
      → IsPunctured pprf_depth after.pprf.nodes x
  spent-after x lt unused = elim (ℕ-cases x c.map.tag) [
    | inl e ↦ rw e old-IsPunctured
    | inr ne ↦
        let before : x < rd.tag_counter = elim (ℕ-cases x rd.tag_counter) [
          | inl e ↦ absurd (unused c.sector within (tag-here ∙ sym e))
          | inr n ↦ omega (arith, counter, lt)
        ] in
        subst (λ p. IsPunctured pprf_depth p.nodes x) (sym pprf-after)
          (IsPunctured-puncture prg pprf_depth deep rd.pprf sound.tree c.map.tag old-lt no_wrap x
            (omega (arith, free))
            (sound.spent x before (λ t h q. elim (ℕ-cases c.sector t) [
              | inl e ↦ ne (sym q ∙ ap (λ u. (rd.table.disk u).tag) (sym e) ∙ sym old)
              | inr n ↦ unused t h (tag-else t n ∙ q)
            ])))
  ]

  used-after : (t : ℕ) → t < key_table_len → (after.table.disk t).tag < after.tag_counter
  used-after t lt = elim (ℕ-cases c.sector t) [
    | inl e ↦ omega (arith, counter, tag-at t e)
    | inr n ↦ omega (arith, counter, tag-else t n, sound.used t lt)
  ]

  distinct-after :
      (t u : ℕ)
      → t < key_table_len
      → u < key_table_len
      → t ≢ u
      → (after.table.disk t).tag ≢ (after.table.disk u).tag
  distinct-after t u lt lu ne q = elim (ℕ-cases c.sector t) [
    | inl e ↦
        let n : c.sector ≢ u = λ w. ne (sym e ∙ w) in
        absurd (omega (arith, tag-at t e, tag-else u n, sound.used u lu, q))
    | inr n ↦ elim (ℕ-cases c.sector u) [
      | inl e ↦ absurd (omega (arith, tag-at u e, tag-else t n, sound.used t lt, q))
      | inr m ↦ sound.distinct t u lt lu ne (sym (tag-else t n) ∙ q ∙ tag-else u m)
    ]
  ]

  cached-after :
      (t : ℕ) (e : CacheEntry)
      → t < key_table_len
      → lookup t after.table ≡ some e
      → e.map.tag ≡ (after.table.disk t).tag
  cached-after t e lt l = elim (ℕ-cases c.sector t) [
    | inl q ↦
        let same : some (persisted renewed_map c) ≡ some e =
          sym cached-here ∙ ap (λ u. lookup u after.table) q ∙ l in
        ap entry_tag (sym same) ∙ sym tag-here ∙ ap (λ u. (after.table.disk u).tag) q
    | inr n ↦ sound.cached t e lt (sym (cached-else t n) ∙ l) ∙ sym (tag-else t n)
  ]
    where
      entry_tag : Option CacheEntry → ℕ
      entry_tag none = 0
      entry_tag (some x) = x.map.tag

  once-after : (t : ℕ) → t < key_table_len → Once t after.table
  unfolding puncture_entry write_key_table_sector
  once-after t lt =
      change-Once
        (write_key_table_sector cfg prg cipher stack
          (puncture_old cfg prg cipher stack rd c.map.tag) renewed_map c.sector)
        c.sector (persisted renewed_map) (λ e. refl) t (sound.once t lt)

  pub puncture_entry-IsSound : IsSound cfg after
  puncture_entry-IsSound = record {
    tree =
        subst (IsTree pprf_depth) (sym pprf-after)
          (puncture_at_tag-IsTree prg pprf_depth deep rd.pprf sound.tree c.map.tag old-lt no_wrap);
    fits =
        let s =
          (puncture_at_tag-size prg pprf_depth deep rd.pprf sound.tree c.map.tag old-lt
            no_wrap).1 in
        omega (arith, s, has_room, ap (λ p. p.size) pprf-after);
    counted = omega (arith, counter, free);
    used = used-after;
    distinct = distinct-after;
    spent = spent-after;
    cached = cached-after;
    once = once-after;
  }
