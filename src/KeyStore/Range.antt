-- ===== src/KeyStore/Range.antt =====
-- The sectors that a puncture leaves to be written.
use secure_deletion.Common.{
  ℕ, zero, suc, ◌+◌, ◌-◌, ◌/◌, ◌≤◌, ◌<◌, ◌≡◌, ◌≢◌, arith, inl, inr, ◌⊎◌, ltb, true, false, lt→ltb,
  ℕ-cases,
}
use secure_deletion.Layout.{hp_fkt_per_sector}
use secure_deletion.KeyStore.{
  Key, SectorCipher, Store, write_pprf_key_sector, write_range, write_punctured,
}
use secure_deletion.KeyStore.Sync.{
  IsLaidOut, IsSynced, IsSyncedOn, IsTopStored, IsBottomStored, IsNodesStored,
}
use secure_deletion.KeyStore.Write.{write-refresh_on, write-keep_on, write-laid, write-disk}

module _ {Cipher : Type 0} (cipher : SectorCipher Cipher) (sectors : ℕ) where
  IsSyncedOn-weaken :
      (rd : Store Cipher) (P Q : ℕ → Type 0)
      → ((n : ℕ) → Q n → P n)
      → IsSyncedOn cipher rd P
      → IsSyncedOn cipher rd Q
  IsSyncedOn-weaken rd P Q sub was = record {
    tops = was.tops;
    bottoms = was.bottoms;
    nodes = λ n q. was.nodes n (sub n q);
  }

  -- The sectors below `s`, and more.
  write_range-IsSyncedOn :
      (n s : ℕ) (rd : Store Cipher) (P : ℕ → Type 0)
      → IsLaidOut rd.hp_h sectors
      → s + n ≤ sectors
      → IsSyncedOn cipher rd P
      → IsSyncedOn cipher (write_range cipher n s rd) (λ m. ((s ≤ m) × (m < s + n)) ⊎ P m)
  unfolding write_range
  write_range-IsSyncedOn zero s rd P laid fits was = IsSyncedOn-weaken rd P _ only was
    where
      only : (m : ℕ) → ((s ≤ m) × (m < s + 0)) ⊎ P m → P m
      only m (inl q) = absurd (omega arith)
      only m (inr p) = p
  write_range-IsSyncedOn (suc n) s rd P laid fits was =
      let d = write_pprf_key_sector cipher rd s false 0 0 in
      IsSyncedOn-weaken (write_range cipher n (s + 1) d) _ _ split (
        write_range-IsSyncedOn n (s + 1) d (λ m. (m ≡ s) ⊎ P m)
          (write-laid cipher rd sectors laid s (omega arith) 0 0 false) (omega arith)
          (write-keep_on cipher rd sectors laid s (omega arith) 0 0 P was))
    where
      split :
          (m : ℕ)
          → ((s ≤ m) × (m < s + suc n)) ⊎ P m
          → ((s + 1 ≤ m) × (m < s + 1 + n)) ⊎ ((m ≡ s) ⊎ P m)
      split m (inr p) = inr (inr p)
      split m (inl q) = elim (ℕ-cases m s) [
        | inl e ↦ inr (inl e)
        | inr ne ↦ inl (omega arith, omega arith)
      ]

module _ {Cipher : Type 0} (cipher : SectorCipher Cipher) (rd : Store Cipher) (sectors : ℕ)
    (laid : IsLaidOut rd.hp_h sectors) (punctured start end : ℕ) (random random' : Key) where
  abbrev refreshed : Store Cipher
  refreshed = write_pprf_key_sector cipher rd punctured true random random'

  range-ahead :
      punctured < start
      → start ≤ end
      → end < sectors
      → IsSyncedOn cipher refreshed (λ n. (n ≡ punctured) ⊎ (n < start))
      → IsSynced cipher (write_range cipher (end + 1 - start) start refreshed) (end + 1)
  range-ahead ahead up within was =
      let s =
        write_range-IsSyncedOn cipher sectors (end + 1 - start) start refreshed _
          (write-laid cipher rd sectors laid punctured (omega arith) random random' true)
          (omega arith) was in
      record { tops = s.tops; bottoms = s.bottoms; nodes = λ n lt. s.nodes n (cover n lt) }
    where
      cover :
          (n : ℕ)
          → n < end + 1
          → ((start ≤ n) × (n < start + (end + 1 - start))) ⊎ ((n ≡ punctured) ⊎ (n < start))
      cover n lt = omega arith

  range-level :
      start ≡ punctured
      → end ≡ punctured
      → IsSyncedOn cipher refreshed (λ n. (n ≡ punctured) ⊎ (n < start))
      → IsSynced cipher refreshed (end + 1)
  range-level e f was = record {
    tops = was.tops;
    bottoms = was.bottoms;
    nodes = λ n lt. was.nodes n (cover n lt);
  }
    where
      cover : (n : ℕ) → n < end + 1 → (n ≡ punctured) ⊎ (n < start)
      cover n lt = omega arith

  -- After a puncture that changed a node of the sector `punctured` and added nodes in the sectors
  -- from `start` to `end`, the writes of `holepunch_persist_unlink` bring the disk in step with the
  -- memory, up to the sector `end`, on a device laid out for more: if before, the sectors below
  -- `start` other than the punctured one were in step, and the FKT but for the two sectors that
  -- hold the keys of the punctured one; and if the punctured sector lies before `start`, or all
  -- the new nodes lie in it.
  pub write_punctured-IsSynced :
      punctured < sectors
      → start ≤ end
      → end < sectors
      → (punctured < start) ⊎ ((start ≡ punctured) × (end ≡ punctured))
      → ((s : ℕ)
          → s < rd.hp_h.fkt_top_width
          → s ≢ punctured / hp_fkt_per_sector / hp_fkt_per_sector
          → IsTopStored cipher rd s)
      → ((b : ℕ)
          → b < rd.hp_h.fkt_bottom_width
          → b ≢ punctured / hp_fkt_per_sector
          → IsBottomStored cipher rd b)
      → ((n : ℕ) → n < start → n ≢ punctured → IsNodesStored cipher rd n)
      → IsSynced cipher (write_punctured cipher rd punctured start end random random') (end + 1)
  unfolding write_punctured
  write_punctured-IsSynced old up within reach tops bottoms nodes =
      let was =
        write-refresh_on cipher rd sectors laid punctured old random random' (λ n. n < start) tops
          bottoms nodes in
      elim reach [
        | inl ahead ↦ rw (lt→ltb punctured start ahead) (range-ahead ahead up within was)
        | inr level ↦
            let e : ltb punctured start ≡ false = ground arith in
            rw e (range-level level.0 level.1 was)
      ]

  -- When the nodes that a puncture adds begin in the punctured sector and go on into a later one,
  -- `end`, then the writes of `holepunch_persist_unlink`, on a device laid out for the punctured
  -- sector, leave the sector `end` on the disk what it was.
  pub write_punctured-skips :
      punctured < sectors
      → start ≡ punctured
      → start < end
      → (write_punctured cipher rd punctured start end random random').disk
          (rd.hp_h.pprf_start + end)
        ≡ rd.disk (rd.hp_h.pprf_start + end)
  unfolding write_punctured
  write_punctured-skips old e up =
      let f : ltb punctured start ≡ false = ground arith in
      rw f (write-disk cipher rd sectors laid punctured old random random' end (omega arith))
