-- ===== src/KeyStore/Read.antt =====
-- What the constructor reads back from the disk.
use secure_deletion.Common.{
  ℕ, zero, suc, ◌+◌, ◌-◌, ◌*◌, ◌/◌, ◌%◌, ◌≤◌, ◌<◌, ◌≡◌, refl, ◌≢◌, arith, ◌==◌, if◌then◌else◌, inl,
  inr, ℕ-cases, sym, ◌∙◌, ap,
}
use mathlib.Core.Path.{subst}
use secure_deletion.Layout.{
  Header, hp_fkt_per_sector, hp_pprf_per_sector, fkt_bottom_key, pprf_sector_key,
}
use secure_deletion.PprfTree.{Nodes}
use secure_deletion.KeyStore.{
  Fkt, FktSector, IsSameFkt, SectorCipher, Store, slot_key, read_top, read_bottom, read_fkt,
  read_pprf_from, read_pprf,
}
use secure_deletion.KeyStore.Sync.{IsLaidOut, IsSynced, IsTopStored, IsBottomStored, IsNodesStored}

-- The store of another run: the disk is the same, the memory is not.
abbrev pub restart : {Cipher : Type 0} → Store Cipher → Fkt → Nodes → Store Cipher
restart rd fkt nodes = record rd { pprf_fkt = fkt; pprf_key = nodes }

slot_key-bottom :
    (f g : Fkt) (b : ℕ)
    → IsSameFkt (f (b / hp_fkt_per_sector)) (g (b / hp_fkt_per_sector))
    → slot_key f (fkt_bottom_key b) ≡ slot_key g (fkt_bottom_key b)
unfolding fkt_bottom_key
slot_key-bottom f g b same = same.entries (b % hp_fkt_per_sector) (omega arith)

slot_key-pprf :
    (h : Header) (f g : Fkt) (n : ℕ)
    → IsSameFkt
        (f (n / hp_fkt_per_sector + h.fkt_top_width))
        (g (n / hp_fkt_per_sector + h.fkt_top_width))
    → slot_key f (pprf_sector_key h n) ≡ slot_key g (pprf_sector_key h n)
unfolding pprf_sector_key
slot_key-pprf h f g n same = same.entries (n % hp_fkt_per_sector) (omega arith)

module _ {Cipher : Type 0} (cipher : SectorCipher Cipher) (rd : Store Cipher) (nodes : Nodes) where
  -- The FKT up to the sector `i` is the one of `rd`.
  abbrev IsReadTo : Fkt → ℕ → Type 0
  IsReadTo f i = (j : ℕ) → j < i → IsSameFkt (f j) (rd.pprf_fkt j)

  abbrev put : Fkt → ℕ → FktSector → Fkt
  put f s x i = if s == i then x else f i

  put-IsReadTo :
      (f : Fkt) (s : ℕ) (x : FktSector)
      → IsReadTo f s
      → IsSameFkt x (rd.pprf_fkt s)
      → IsReadTo (put f s x) (s + 1)
  put-IsReadTo f s x was same j lt = elim (ℕ-cases s j) [
    | inl e ↦ rw (← e) (subst (λ y. IsSameFkt y (rd.pprf_fkt s)) (sym (put_here f s x)) same)
    | inr n ↦
        subst (λ y. IsSameFkt y (rd.pprf_fkt j)) (sym (put_else f s x j n)) (was j (omega arith))
  ]
    where
      put_here : (f : Fkt) (s : ℕ) (x : FktSector) → put f s x s ≡ x
      put_here f s x = ground arith

      put_else : (f : Fkt) (s : ℕ) (x : FktSector) (j : ℕ) → s ≢ j → put f s x j ≡ f j
      put_else f s x j n = ground arith

  read_top-IsReadTo :
      (n s : ℕ) (f : Fkt)
      → s + n ≤ rd.hp_h.fkt_top_width
      → ((i : ℕ) → i < rd.hp_h.fkt_top_width → IsTopStored cipher rd i)
      → IsReadTo f s
      → (g : Fkt) × (read_top cipher n s (restart rd f nodes) ≡ restart rd g nodes)
        × IsReadTo g (s + n)
  unfolding read_top
  read_top-IsReadTo zero s f fits stored was =
      let e : s + 0 ≡ s = omega arith in (f, refl, rw e was)
  read_top-IsReadTo (suc n) s f fits stored was =
      let sectorno : ℕ = rd.hp_h.fkt_start + s in
      let e : s + suc n ≡ s + 1 + n = omega arith in
      rw e (
        read_top-IsReadTo n (s + 1)
          (put f s (cipher.open_fkt rd.master_key sectorno (rd.disk sectorno))) (omega arith) stored
          (put-IsReadTo f s _ was (stored s (omega arith))))

  read_bottom-IsReadTo :
      (n b : ℕ) (f : Fkt) (sectors : ℕ)
      → IsLaidOut rd.hp_h sectors
      → b + n ≤ rd.hp_h.fkt_bottom_width
      → ((i : ℕ) → i < rd.hp_h.fkt_bottom_width → IsBottomStored cipher rd i)
      → IsReadTo f (rd.hp_h.fkt_top_width + b)
      → (g : Fkt) × (read_bottom cipher n b (restart rd f nodes) ≡ restart rd g nodes)
        × IsReadTo g (rd.hp_h.fkt_top_width + b + n)
  unfolding read_bottom
  read_bottom-IsReadTo zero b f sectors laid fits stored was =
      let e : rd.hp_h.fkt_top_width + b + 0 ≡ rd.hp_h.fkt_top_width + b = omega arith in
      (f, refl, rw e was)
  read_bottom-IsReadTo (suc n) b f sectors laid fits stored was =
      let s : ℕ = rd.hp_h.fkt_top_width + b in
      let sectorno : ℕ = rd.hp_h.fkt_start + s in
      let key = slot_key f (fkt_bottom_key b) in
      let same_key =
        slot_key-bottom f rd.pprf_fkt b (was (b / hp_fkt_per_sector) (omega (arith, laid.wide))) in
      let e : s + suc n ≡ rd.hp_h.fkt_top_width + (b + 1) + n = omega arith in
      let k : s + 1 ≡ rd.hp_h.fkt_top_width + (b + 1) = omega arith in
      let a : sectorno ≡ rd.hp_h.fkt_start + rd.hp_h.fkt_top_width + b = omega arith in
      let here : IsSameFkt (cipher.open_fkt key sectorno (rd.disk sectorno)) (rd.pprf_fkt s) =
        rw (same_key, a) (stored b (omega arith)) in
      rw e (
        read_bottom-IsReadTo n (b + 1) (put f s (cipher.open_fkt key sectorno (rd.disk sectorno)))
          sectors laid (omega arith) stored (rw k at (put-IsReadTo f s _ was here)))

  -- The nodes below `i` are those of `rd`.
  abbrev IsNodesTo : Nodes → ℕ → Type 0
  IsNodesTo m i = (j : ℕ) → j < i → m j ≡ rd.pprf_key j

  abbrev put_sector : Nodes → (s : ℕ) → Nodes → Nodes
  put_sector m s x i = if i / hp_pprf_per_sector == s then x (i % hp_pprf_per_sector) else m i

  put_sector-IsNodesTo :
      (m : Nodes) (s : ℕ) (x : Nodes)
      → IsNodesTo m (s * hp_pprf_per_sector)
      → ((j : ℕ) → j < hp_pprf_per_sector → x j ≡ rd.pprf_key (s * hp_pprf_per_sector + j))
      → IsNodesTo (put_sector m s x) ((s + 1) * hp_pprf_per_sector)
  put_sector-IsNodesTo m s x was same j lt = elim (ℕ-cases (j / hp_pprf_per_sector) s) [
    | inl e ↦
        let q : s * hp_pprf_per_sector + j % hp_pprf_per_sector ≡ j = omega arith in
        let r = same (j % hp_pprf_per_sector) (omega arith) ∙ ap rd.pprf_key q in ground (arith, r)
    | inr n ↦ let r = was j (omega arith) in ground (arith, r)
  ]

  read_pprf_from-IsNodesTo :
      (n s : ℕ) (f : Fkt) (m : Nodes) (sectors : ℕ)
      → IsLaidOut rd.hp_h sectors
      → s + n ≤ sectors
      → IsReadTo f (rd.hp_h.fkt_top_width + rd.hp_h.fkt_bottom_width)
      → ((i : ℕ) → i < sectors → IsNodesStored cipher rd i)
      → IsNodesTo m (s * hp_pprf_per_sector)
      → (m' : Nodes) × (read_pprf_from cipher n s (restart rd f m) ≡ restart rd f m')
        × IsNodesTo m' ((s + n) * hp_pprf_per_sector)
  unfolding read_pprf_from
  read_pprf_from-IsNodesTo zero s f m sectors laid fits read stored was =
      let e : s + 0 ≡ s = omega arith in (m, refl, rw e was)
  read_pprf_from-IsNodesTo (suc n) s f m sectors laid fits read stored was =
      let sectorno : ℕ = rd.hp_h.pprf_start + s in
      let same_key =
        slot_key-pprf rd.hp_h f rd.pprf_fkt s
          (read (s / hp_fkt_per_sector + rd.hp_h.fkt_top_width) (omega (arith, laid.slots))) in
      let opened =
        cipher.open_pprf (slot_key f (pprf_sector_key rd.hp_h s)) sectorno (rd.disk sectorno) in
      let e : s + suc n ≡ s + 1 + n = omega arith in
      rw e (
        read_pprf_from-IsNodesTo n (s + 1) f (put_sector m s opened) sectors laid (omega arith) read
          stored (put_sector-IsNodesTo m s opened was (rw same_key (stored s (omega arith)))))

  read_fkt-IsReadTo :
      (f : Fkt) (sectors : ℕ)
      → IsLaidOut rd.hp_h sectors
      → IsSynced cipher rd sectors
      → (g : Fkt) × (read_fkt cipher (restart rd f nodes) ≡ restart rd g nodes)
        × IsReadTo g (rd.hp_h.fkt_top_width + rd.hp_h.fkt_bottom_width)
  unfolding read_fkt
  read_fkt-IsReadTo f sectors laid synced =
      let top =
        read_top-IsReadTo rd.hp_h.fkt_top_width 0 f (omega arith) synced.tops
          (λ j lt. ground arith) in
      let e : rd.hp_h.fkt_top_width + 0 ≡ rd.hp_h.fkt_top_width = omega arith in
      let z : 0 + rd.hp_h.fkt_top_width ≡ rd.hp_h.fkt_top_width = omega arith in
      let low =
        read_bottom-IsReadTo rd.hp_h.fkt_bottom_width 0 top.0 sectors laid (omega arith)
          synced.bottoms (rw e (rw z at top.2)) in
      (low.0, ap (read_bottom cipher rd.hp_h.fkt_bottom_width 0) top.1 ∙ low.1, rw e at low.2)

-- What a restart reads.
pub record IsRestored {Cipher : Type 0} (rd d : Store Cipher) : Type 0 where
  pub fkt :
      (i : ℕ)
      → i < rd.hp_h.fkt_top_width + rd.hp_h.fkt_bottom_width
      → IsSameFkt (d.pprf_fkt i) (rd.pprf_fkt i)
  pub key : (i : ℕ) → i < (rd.pprf_fkt 0).pprf_size → d.pprf_key i ≡ rd.pprf_key i

module _ {Cipher : Type 0} (cipher : SectorCipher Cipher) (rd : Store Cipher) (sectors : ℕ)
    (laid : IsLaidOut rd.hp_h sectors) (synced : IsSynced cipher rd sectors) where
  restored :
      (f g : Fkt) (nodes : Nodes)
      → 0 < rd.hp_h.fkt_top_width
      → (rd.pprf_fkt 0).pprf_size ≤ sectors * hp_pprf_per_sector
      → ((j : ℕ)
          → j < rd.hp_h.fkt_top_width + rd.hp_h.fkt_bottom_width
          → IsSameFkt (g j) (rd.pprf_fkt j))
      → read_fkt cipher (restart rd f nodes) ≡ restart rd g nodes
      → IsRestored rd (read_pprf cipher (read_fkt cipher (restart rd f nodes)))
  unfolding read_pprf
  restored f g nodes top fits same e =
      let size : (g 0).pprf_size ≡ (rd.pprf_fkt 0).pprf_size = (same 0 (omega arith)).pprf_size in
      let count = ((rd.pprf_fkt 0).pprf_size + hp_pprf_per_sector - 1) / hp_pprf_per_sector in
      let read =
        read_pprf_from-IsNodesTo cipher rd nodes count 0 g nodes sectors laid (omega arith) same
          synced.nodes (λ j lt. ground arith) in
      rw (e, size, read.1) (record { fkt = same; key = λ i lt. read.2 i (omega arith) })

  -- A restart loses nothing: when the disk is in step with the memory, on a device that is laid out
  -- for so many PPRF sectors, with an upper FKT level that is not empty and a PPRF key of at most
  -- these sectors, then `holepunch_read_fkt` and `holepunch_read_pprf`, run with the same master key
  -- on a memory that holds anything, give back every FKT sector and every node of the key.
  pub read-restart :
      (fkt : Fkt) (nodes : Nodes)
      → 0 < rd.hp_h.fkt_top_width
      → (rd.pprf_fkt 0).pprf_size ≤ sectors * hp_pprf_per_sector
      → IsRestored rd (read_pprf cipher (read_fkt cipher (restart rd fkt nodes)))
  read-restart fkt nodes top fits =
      let read = read_fkt-IsReadTo cipher rd nodes fkt sectors laid synced in
      restored fkt read.0 nodes top fits read.2 read.1
