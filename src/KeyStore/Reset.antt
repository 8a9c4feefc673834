-- ===== src/KeyStore/Reset.antt =====
-- The end of `holepunch_do_pprf_rotation` in dm-holepunch-main.c: the FKT is filled with random sectors,
-- and the new PPRF key, of one node, written. What AES-CTR makes of a sector is an argument.
use secure_deletion.Common.{
  ℕ, zero, suc, ◌+◌, ◌/◌, ◌%◌, ◌≤◌, ◌<◌, ◌≡◌, refl, sym, ap, ◌∙◌, ◌≢◌, arith, inl, inr, ℕ-cases,
  ◌==◌, ltb, true, if◌then◌else◌,
}
use mathlib.Core.Path.{subst}
use secure_deletion.Layout.{
  Header, hp_fkt_per_sector, hp_pprf_per_sector, fkt_bottom_key, pprf_sector_key,
}
use secure_deletion.PprfTree.{Keynode, Nodes, clear_28}
use secure_deletion.KeyStore.{Key, SectorCipher, Store, slot_key, write_cipher, pprf_sector}
use secure_deletion.KeyStore.Sync.{write-here}

module _ {Cipher : Type 0} (cipher : SectorCipher Cipher) where
  -- An FKT sector on the disk and in memory: written, and decrypted with its key.
  abbrev fill : (h : Header) → (s : ℕ) → (key : Key) → Cipher → Store Cipher → Store Cipher
  fill h s key w rd = record rd {
    pprf_fkt = λ i. if s == i then cipher.open_fkt key (h.fkt_start + s) w else rd.pprf_fkt i;
    disk = write_cipher cipher rd.disk (h.fkt_start + s) w;
  }

  -- The first sector has the new counts: a tag for each key table sector, and one node.
  abbrev with_counts : (h : Header) → (master_key : Key) → (key_table_len : ℕ) → Cipher → Cipher
  with_counts h master_key key_table_len w =
      cipher.seal_fkt master_key h.fkt_start (record (cipher.open_fkt master_key h.fkt_start w) {
        tag_counter = key_table_len;
        pprf_size = 1;
      })

  module _ (h : Header) (master_key : Key) (key_table_len : ℕ) (random : ℕ → Cipher) where
    abbrev top_cipher : (s : ℕ) → Cipher
    top_cipher s = if s == 0 then with_counts h master_key key_table_len (random 0) else random s

    -- The loops over the two levels, with the rounds left.
    unfoldable pub reset_top : (rounds s : ℕ) → Store Cipher → Store Cipher
    reset_top zero s rd = rd
    reset_top (suc n) s rd = reset_top n (suc s) (fill h s master_key (top_cipher s) rd)

    unfoldable pub reset_bottom : (rounds b : ℕ) → Store Cipher → Store Cipher
    reset_bottom zero b rd = rd
    reset_bottom (suc n) b rd =
        let s : ℕ = h.fkt_top_width + b in
        reset_bottom n (suc b) (fill h s (slot_key rd.pprf_fkt (fkt_bottom_key b)) (random s) rd)

  -- A filled sector, and the others.
  abbrev pub IsOpened : (h : Header) → (key : Key) → (s : ℕ) → Store Cipher → Type 0
  IsOpened h key s rd =
      rd.pprf_fkt s ≡ cipher.open_fkt key (h.fkt_start + s) (rd.disk (h.fkt_start + s))

  pub fill-here :
      (h : Header) (s : ℕ) (key : Key) (w : Cipher) (rd : Store Cipher)
      → IsOpened h key s (fill h s key w rd)
  fill-here h s key w rd =
      let e : (s == s) ≡ true = ground arith in
      rw e (
        ap (cipher.open_fkt key (h.fkt_start + s))
          (sym (write-here cipher rd.disk (h.fkt_start + s) w)))

  pub fill-else :
      (h : Header) (s t : ℕ) (key : Key) (w : Cipher) (rd : Store Cipher)
      → s ≢ t
      → ((fill h s key w rd).pprf_fkt t ≡ rd.pprf_fkt t)
        × ((fill h s key w rd).disk (h.fkt_start + t) ≡ rd.disk (h.fkt_start + t))
  fill-else h s t key w rd ne = (ground arith, ground arith)

  -- A loop leaves a sector alone.
  abbrev pub IsKept : (h : Header) → (s : ℕ) → (rd d : Store Cipher) → Type 0
  IsKept h s rd d =
      (d.pprf_fkt s ≡ rd.pprf_fkt s) × (d.disk (h.fkt_start + s) ≡ rd.disk (h.fkt_start + s))

  pub IsKept-IsOpened :
      (h : Header) (key : Key) (s : ℕ) (rd d : Store Cipher)
      → IsKept h s rd d
      → IsOpened h key s rd
      → IsOpened h key s d
  IsKept-IsOpened h key s rd d (f, e) o = f ∙ o ∙ ap (cipher.open_fkt key (h.fkt_start + s)) (sym e)

  IsKept-trans :
      (h : Header) (s : ℕ) (a b d : Store Cipher) → IsKept h s a b → IsKept h s b d → IsKept h s a d
  IsKept-trans h s a b d (p, q) (p', q') = (p' ∙ p, q' ∙ q)

  module _ (h : Header) (master_key : Key) (key_table_len : ℕ) (random : ℕ → Cipher) where
    reset_top-IsKept :
        (n s t : ℕ) (rd : Store Cipher)
        → t < s
        → IsKept h t rd (reset_top h master_key key_table_len random n s rd)
    unfolding reset_top
    reset_top-IsKept zero s t rd lt = (refl, refl)
    reset_top-IsKept (suc n) s t rd lt =
        let w = top_cipher h master_key key_table_len random s in
        let filled = fill h s master_key w rd in
        IsKept-trans h t rd filled (reset_top h master_key key_table_len random n (suc s) filled)
          (fill-else h s t master_key w rd (omega arith))
          (reset_top-IsKept n (suc s) t filled (omega arith))

    pub reset_top-IsOpened :
        (n s t : ℕ) (rd : Store Cipher)
        → s ≤ t
        → t < s + n
        → IsOpened h master_key t (reset_top h master_key key_table_len random n s rd)
    unfolding reset_top
    reset_top-IsOpened zero s t rd le lt = let none_left : ⊥ = omega arith in elim none_left [ ]
    reset_top-IsOpened (suc n) s t rd le lt =
        let w = top_cipher h master_key key_table_len random s in
        let filled = fill h s master_key w rd in
        elim (ℕ-cases s t) [
          | inl e ↦
              IsKept-IsOpened h master_key t filled
                (reset_top h master_key key_table_len random n (suc s) filled)
                (reset_top-IsKept n (suc s) t filled (omega arith))
                (subst (λ x. IsOpened h master_key x filled) e (fill-here h s master_key w rd))
          | inr ne ↦ reset_top-IsOpened n (suc s) t filled (omega arith) (omega arith)
        ]

    pub reset_bottom-IsKept :
        (n b t : ℕ) (rd : Store Cipher)
        → t < h.fkt_top_width + b
        → IsKept h t rd (reset_bottom h master_key key_table_len random n b rd)
    unfolding reset_bottom
    reset_bottom-IsKept zero b t rd lt = (refl, refl)
    reset_bottom-IsKept (suc n) b t rd lt =
        let s : ℕ = h.fkt_top_width + b in
        let key = slot_key rd.pprf_fkt (fkt_bottom_key b) in
        let filled = fill h s key (random s) rd in
        IsKept-trans h t rd filled (reset_bottom h master_key key_table_len random n (suc b) filled)
          (fill-else h s t key (random s) rd (omega arith))
          (reset_bottom-IsKept n (suc b) t filled (omega arith))

    -- A lower sector is opened with the key that the upper level has, which the loop leaves alone.
    abbrev pub IsOpenedBelow : (t : ℕ) → Store Cipher → Type 0
    IsOpenedBelow t rd =
        IsOpened h (slot_key rd.pprf_fkt (fkt_bottom_key t)) (h.fkt_top_width + t) rd

    pub reset_bottom-IsOpenedBelow :
        (n b t : ℕ) (rd : Store Cipher)
        → ((u : ℕ) → u < b + n → u / hp_fkt_per_sector < h.fkt_top_width)
        → b ≤ t
        → t < b + n
        → IsOpenedBelow t (reset_bottom h master_key key_table_len random n b rd)
    unfolding reset_bottom fkt_bottom_key
    reset_bottom-IsOpenedBelow zero b t rd wide le lt =
        let none_left : ⊥ = omega arith in elim none_left [ ]
    reset_bottom-IsOpenedBelow (suc n) b t rd wide le lt =
        let key = slot_key rd.pprf_fkt (fkt_bottom_key b) in
        let s : ℕ = h.fkt_top_width + b in
        let filled = fill h s key (random s) rd in
        let d = reset_bottom h master_key key_table_len random n (suc b) filled in
        let above : b / hp_fkt_per_sector < h.fkt_top_width = wide b (omega arith) in
        let kept = (reset_bottom-IsKept (suc n) b (b / hp_fkt_per_sector) rd (omega arith)).0 in
        elim (ℕ-cases b t) [
          | inl e ↦
              subst (λ x. IsOpenedBelow x d) e
                (subst (λ k. IsOpened h k s d)
                  (sym (ap (λ x. x.entries (b % hp_fkt_per_sector)) kept))
                  (IsKept-IsOpened h key s filled d
                    (reset_bottom-IsKept n (suc b) s filled (omega arith))
                    (fill-here h s key (random s) rd)))
          | inr ne ↦
              reset_bottom-IsOpenedBelow n (suc b) t filled (λ u lt'. wide u (omega arith))
                (omega arith) (omega arith)
        ]

  -- The two loops, and the new key in its first sector; the `memset` of 4096 bytes before it clears the
  -- other nodes of that sector and 28 bytes of the next node.
  unfoldable pub reset_keys :
      (key_table_len : ℕ)
      → (random : ℕ → Cipher) → (new_key zero_node : Keynode) → Store Cipher
      → Store Cipher
  reset_keys key_table_len random new_key zero_node rd =
      let h = rd.hp_h in
      let tops = reset_top h rd.master_key key_table_len random h.fkt_top_width 0 rd in
      let d = reset_bottom h rd.master_key key_table_len random h.fkt_bottom_width 0 tops in
      let keys : Nodes = λ i.
        if i == 0
        then new_key
        else if ltb i hp_pprf_per_sector
        then zero_node
        else if i == hp_pprf_per_sector
        then clear_28 (rd.pprf_key i)
        else rd.pprf_key i in
      record rd {
        pprf_fkt = d.pprf_fkt;
        pprf_key = keys;
        disk = write_cipher cipher d.disk h.pprf_start (
            cipher.seal_pprf (slot_key d.pprf_fkt (pprf_sector_key h 0)) h.pprf_start
              (pprf_sector keys 0));
      }
