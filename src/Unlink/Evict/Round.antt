-- ===== src/Unlink/Evict/Round.antt =====
-- A round of the eviction over the entries of a entries.
use secure_deletion.Common.{
  ℕ, Bool, suc, ◌+◌, ◌*◌, ◌^◌, ◌≤◌, ◌<◌, ◌≡◌, ◌≢◌, refl, arith, true, Bool-cases, some, none, inl,
  inr, ap, sym, ◌∙◌, List, [], ◌∷◌, length, All, ltb, ◌&&◌,
}
use mathlib.Core.Path.{subst}
use secure_deletion.PprfTree.{Block}
use secure_deletion.MapCache.{CacheEntry}
use secure_deletion.KeyTable.{lookup}
use secure_deletion.Unlink.{Config, FileCipher, Device, is_full, rotate_pprf}
use secure_deletion.Unlink.Sound.{IsFileCipher, IsConfig, IsSound}
use secure_deletion.Unlink.Single.{find-sector}
use secure_deletion.Unlink.Deletes.{unlinked-full}
use secure_deletion.Unlink.Renew.{IsNew, none-after}
use secure_deletion.Unlink.Evict.{
  Eviction, going, freed, drop_found, will_evict, will_write, write_due, evict_due, evict_found,
  evict_entries, eraser_cache_memory_pressure, chain,
}
use secure_deletion.Unlink.Evict.Step.{written, evicted, evict_found-IsStep}

next_fit : (a d n c : ℕ) → a + 2 * d * suc n ≤ c → a + 2 * d + 2 * d * n ≤ c
next_fit a d n c h = grind arith

abbrev pub Different : List ℕ → Type 0
Different [] = Unit
Different (s ∷ ss) = All (λ t. s ≢ t) ss × Different ss

module _ (cfg : Config) (ok : IsConfig cfg) (prg : Block → Block × Block) (cipher : FileCipher)
    (law : IsFileCipher cipher) (stack : Block) (new_key : Block) (time_after : (a b : ℕ) → Bool)
    (last_dirty_timeout last_access_timeout : ℕ) where
  abbrev pub entries : (ss : List ℕ) → Device → Eviction
  entries ss rd =
      evict_entries cfg prg cipher stack new_key time_after last_dirty_timeout last_access_timeout
        ss rd

  -- The sectors are in the key table and cached.
  abbrev pub Cached : Device → List ℕ → Type 0
  Cached rd ss =
      All (λ s. (s < cfg.key_table_len) × ((c : CacheEntry) × (lookup s rd.table ≡ some c))) ss

  Cached-else :
      (s : ℕ) (rd after : Device) (ss : List ℕ)
      → ((t : ℕ) → s ≢ t → lookup t after.table ≡ lookup t rd.table)
      → All (λ t. s ≢ t) ss
      → Cached rd ss
      → Cached after ss
  Cached-else s rd after [] same ne cached = tt
  Cached-else s rd after (t ∷ ts) same (ne, nes) ((lt, (c, at)), cached) =
      ((lt, (c, same t ne ∙ at)), Cached-else s rd after ts same nes cached)

  -- The loop over cached entries of different sectors, while there are room and tags for them.
  pub evict_entries-IsSound :
      (ss : List ℕ) (rd : Device)
      → IsSound cfg rd
      → Cached rd ss
      → Different ss
      → rd.pprf.size + 2 * cfg.pprf_depth * length ss ≤ cfg.pprf_capacity
      → rd.tag_counter + length ss ≤ 2 ^ cfg.pprf_depth
      → (after : Device) × (entries ss rd ≡ going after) × IsSound cfg after
  unfolding evict_entries
  evict_entries-IsSound [] rd sound cached ne fit free = (rd, refl, sound)
  evict_entries-IsSound (s ∷ ss) rd sound ((lt, (c, at)), cached) (ne, nes) fit free =
      let more = next_fit rd.pprf.size cfg.pprf_depth (length ss) cfg.pprf_capacity fit in
      let one : rd.pprf.size + 2 * cfg.pprf_depth ≤ cfg.pprf_capacity = omega (arith, more) in
      let (next, run, step) =
        evict_found-IsStep cfg ok prg cipher law stack new_key time_after last_dirty_timeout
          last_access_timeout rd s c sound lt at one (omega (arith, free)) in
      let (after, rest, end) =
        evict_entries-IsSound ss next step.sound (Cached-else s rd next ss step.others ne cached)
          nes (omega (arith, step.size, more)) (omega (arith, step.counter, free)) in
      (
        after,
        ap
              (λ o.
                chain cfg prg cipher stack new_key time_after last_dirty_timeout last_access_timeout
                  (evict_found cfg prg cipher stack new_key time_after last_dirty_timeout
                    last_access_timeout rd o)
                  (λ d. entries ss d))
              at
            ∙ ap
                (λ o.
                  chain cfg prg cipher stack new_key time_after last_dirty_timeout
                    last_access_timeout o (λ d. entries ss d))
                run
            ∙ rest,
        end,
      )

  -- The loop at an entry that is due, with no room, and another one to follow.
  pub evict_entries-freed :
      (s t : ℕ) (ss : List ℕ) (rd : Device) (c : CacheEntry) (sound : IsSound cfg rd)
      → IsNew cfg ok prg cipher law stack rd new_key
      → is_full cfg prg cipher stack rd ≡ true
      → s < cfg.key_table_len
      → t < cfg.key_table_len
      → lookup s rd.table ≡ some c
      → will_write cfg prg cipher stack new_key time_after last_dirty_timeout last_access_timeout c
        ≡ true
      → entries (s ∷ t ∷ ss) rd ≡ freed
  unfolding evict_entries write_due evict_due
  evict_entries-freed s t ss rd c sound fresh full lt lt' at due =
      let own : c.sector ≡ s = find-sector s _ c at in
      let here : lookup c.sector rd.table ≡ some c = ap (λ u. lookup u rd.table) own ∙ at in
      let within : c.sector < cfg.key_table_len = subst (λ u. u < cfg.key_table_len) (sym own) lt in
      let rotated = rotate_pprf cfg prg cipher stack new_key rd in
      let gone : (u : ℕ) → u < cfg.key_table_len → lookup u rotated.table ≡ none =
        none-after cfg ok prg cipher law stack rd new_key fresh sound in
      let next =
        chain cfg prg cipher stack new_key time_after last_dirty_timeout last_access_timeout in
      let follow : Device → Eviction = λ d. entries (t ∷ ss) d in
      let w : written cfg ok prg cipher law stack new_key time_after last_dirty_timeout
            last_access_timeout rd c
          ≡ rotated =
        rw due (unlinked-full cfg ok prg cipher law stack rd sound c here within new_key full) in
      ap
        (λ o.
          next
            (evict_found cfg prg cipher stack new_key time_after last_dirty_timeout
              last_access_timeout rd o)
            follow)
        at
      ∙ ap
          (λ d.
            next
              (evicted cfg ok prg cipher law stack new_key time_after last_dirty_timeout
                last_access_timeout d c)
              follow)
          w
      ∙ elim (Bool-cases (
          will_evict cfg prg cipher stack new_key time_after last_dirty_timeout last_access_timeout
            c
          && ltb eraser_cache_memory_pressure rotated.table.cache.map_cache_count)) [
            | inl b ↦
                rw b (ap (λ o. next (drop_found rotated c.sector o) follow) (gone c.sector within))
            | inr b ↦ rw b (
                ap
                  (λ o.
                    next
                      (evict_found cfg prg cipher stack new_key time_after last_dirty_timeout
                        last_access_timeout rotated o)
                      (λ d. entries ss d))
                  (gone t lt'))
          ]
