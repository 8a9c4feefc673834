-- ===== src/Unlink/Evict/Step.antt =====
-- The step of the eviction at an entry.
use secure_deletion.Common.{
  ℕ, Bool, ◌+◌, ◌*◌, ◌^◌, ◌≤◌, ◌<◌, ◌≡◌, ◌≢◌, refl, arith, false, Bool-cases, some, none, inl, inr,
  ap, sym, ◌∙◌, ℕ-cases, ltb, ◌&&◌, u32_mod,
}
use native.Mathlib.Nat.{mod-eq_of_lt}
use mathlib.Core.Path.{subst}
use secure_deletion.PprfTree.{Block}
use secure_deletion.MapCache.{CacheEntry}
use secure_deletion.KeyTable.{lookup, drop}
use secure_deletion.KeyTable.Cached.{lookup-drop_ne}
use secure_deletion.KeyTable.Emptied.{lookup-drop, Once-drop, none-Once}
use secure_deletion.Unlink.{Config, FileCipher, Device, is_full, persist_unlink, puncture_entry}
use secure_deletion.Unlink.Sound.{IsFileCipher, IsConfig, IsSound}
use secure_deletion.Unlink.Persist.{
  counter, size-after, cached-here, cached-else, puncture_entry-IsSound,
}
use secure_deletion.Unlink.Single.{find-sector}
use secure_deletion.Unlink.Deletes.{unlinked-room}
use secure_deletion.Unlink.Evict.{
  Eviction, going, dropped, drop_found, will_evict, will_write, write_due, evict_due,
  eraser_cache_memory_pressure,
}

-- What a step at the entry of a sector leaves: the invariant and the entries of the other sectors.
pub record IsStep (cfg : Config) (sector : ℕ) (rd after : Device) : Type 0 where
  pub sound : IsSound cfg after
  pub size : after.pprf.size ≤ rd.pprf.size + 2 * cfg.pprf_depth
  pub counter : after.tag_counter ≤ rd.tag_counter + 1
  pub others : (t : ℕ) → sector ≢ t → lookup t after.table ≡ lookup t rd.table

module _ (cfg : Config) where
  dropped-IsStep :
      (rd : Device) (s : ℕ)
      → IsSound cfg rd
      → s < cfg.key_table_len
      → IsStep cfg s rd (dropped rd s)
  dropped-IsStep rd s sound within =
      let out : lookup s (drop s rd.table) ≡ none = lookup-drop s rd.table (sound.once s within) in
      record {
        sound = record {
          tree = sound.tree;
          fits = sound.fits;
          counted = sound.counted;
          used = sound.used;
          distinct = sound.distinct;
          spent = sound.spent;
          cached = λ t e lt l. elim (ℕ-cases s t) [
            | inl q ↦
                let clash : none ≡ some e = sym out ∙ ap (λ u. lookup u (drop s rd.table)) q ∙ l in
                cc
            | inr ne ↦ sound.cached t e lt (sym (lookup-drop_ne s t rd.table ne) ∙ l)
          ];
          once = λ t lt. elim (ℕ-cases s t) [
            | inl q ↦
                none-Once t (drop s rd.table) (sym (ap (λ u. lookup u (drop s rd.table)) q) ∙ out)
            | inr ne ↦ Once-drop s t rd.table ne (sound.once t lt)
          ];
        };
        size = omega arith;
        counter = omega arith;
        others = λ t ne. lookup-drop_ne s t rd.table ne;
      }

module _ (cfg : Config) (ok : IsConfig cfg) (prg : Block → Block × Block) (cipher : FileCipher)
    (law : IsFileCipher cipher) (stack : Block) (new_key : Block) (time_after : (a b : ℕ) → Bool)
    (last_dirty_timeout last_access_timeout : ℕ) where
  abbrev pub written : Device → CacheEntry → Device
  written rd c =
      write_due cfg prg cipher stack new_key time_after last_dirty_timeout last_access_timeout rd c

  abbrev pub evicted : Device → CacheEntry → Eviction
  evicted rd c =
      evict_due cfg prg cipher stack new_key time_after last_dirty_timeout last_access_timeout rd c

  room :
      (rd : Device)
      → rd.pprf.size + 2 * cfg.pprf_depth ≤ cfg.pprf_capacity
      → is_full cfg prg cipher stack rd ≡ false
  room rd h =
      let small : rd.pprf.size + 2 * cfg.pprf_depth < u32_mod = omega (arith, ok.counted) in
      let w = mod-eq_of_lt small in ground arith

  same-IsStep : (rd : Device) (s : ℕ) → IsSound cfg rd → IsStep cfg s rd rd
  same-IsStep rd s sound = record {
    sound = sound;
    size = omega arith;
    counter = omega arith;
    others = λ t ne. refl;
  }

  module _ (rd : Device) (sound : IsSound cfg rd) (c : CacheEntry)
      (within : c.sector < cfg.key_table_len) where
    write_due-IsStep :
        lookup c.sector rd.table ≡ some c
        → rd.pprf.size + 2 * cfg.pprf_depth ≤ cfg.pprf_capacity
        → rd.tag_counter < 2 ^ cfg.pprf_depth
        → IsStep cfg c.sector rd (written rd c)
          × ((e : CacheEntry) × (lookup c.sector (written rd c).table ≡ some e))
    unfolding write_due
    write_due-IsStep at fit free =
        elim (Bool-cases (
          will_write cfg prg cipher stack new_key time_after last_dirty_timeout last_access_timeout
            c)) [
              | inl w ↦
                  let has = room rd fit in
                  rw (w, persist_unlink-room has)
                    (
                      record {
                        sound =
                            puncture_entry-IsSound cfg ok prg cipher law stack rd sound c at within
                              has free;
                        size = size-after cfg ok prg cipher law stack rd sound c at within has free;
                        counter =
                            let k =
                              counter cfg ok prg cipher law stack rd sound c at within has free in
                            omega (arith, k);
                        others = λ t ne.
                            cached-else cfg ok prg cipher law stack rd sound c at within has free t
                              ne;
                      },
                      (_, cached-here cfg ok prg cipher law stack rd sound c at within has free),
                    )
              | inr w ↦ rw w (same-IsStep rd c.sector sound, (c, at))
            ]
      where
        persist_unlink-room :
            is_full cfg prg cipher stack rd ≡ false
            → persist_unlink cfg prg cipher stack new_key rd c
              ≡ puncture_entry cfg prg cipher stack rd c
        persist_unlink-room has =
            unlinked-room cfg ok prg cipher law stack rd sound c at within new_key has

    evict_due-IsStep :
        (e : CacheEntry)
        → lookup c.sector rd.table ≡ some e
        → (after : Device) × (evicted rd c ≡ going after)
          × IsStep cfg c.sector rd after
          × (after.pprf.size ≤ rd.pprf.size)
          × (after.tag_counter ≤ rd.tag_counter)
    unfolding evict_due
    evict_due-IsStep e at =
        elim (Bool-cases (
          will_evict cfg prg cipher stack new_key time_after last_dirty_timeout last_access_timeout
            c
          && ltb eraser_cache_memory_pressure rd.table.cache.map_cache_count)) [
            | inl w ↦ (
              dropped rd c.sector,
              rw w (ap (drop_found rd c.sector) at),
              dropped-IsStep cfg rd c.sector sound within,
              omega arith,
              omega arith,
            )
            | inr w ↦ (rd, rw w refl, same-IsStep rd c.sector sound, omega arith, omega arith)
          ]

  -- A round of the loop at the entry of a sector.
  pub evict_found-IsStep :
      (rd : Device) (s : ℕ) (c : CacheEntry)
      → IsSound cfg rd
      → s < cfg.key_table_len
      → lookup s rd.table ≡ some c
      → rd.pprf.size + 2 * cfg.pprf_depth ≤ cfg.pprf_capacity
      → rd.tag_counter < 2 ^ cfg.pprf_depth
      → (after : Device) × (evicted (written rd c) c ≡ going after) × IsStep cfg s rd after
  evict_found-IsStep rd s c sound lt at fit free =
      let own : c.sector ≡ s = find-sector s _ c at in
      let here : lookup c.sector rd.table ≡ some c = ap (λ u. lookup u rd.table) own ∙ at in
      let within : c.sector < cfg.key_table_len = subst (λ u. u < cfg.key_table_len) (sym own) lt in
      let (first, (e, found)) = write_due-IsStep rd sound c within here fit free in
      let (after, run, last, size, count) =
        evict_due-IsStep (written rd c) first.sound c within e found in
      (
        after,
        run,
        record {
          sound = last.sound;
          size = omega (arith, size, first.size);
          counter = omega (arith, count, first.counter);
          others = λ t ne.
              let ne' : c.sector ≢ t = λ q. ne (sym own ∙ q) in
              last.others t ne' ∙ first.others t ne';
        },
      )
