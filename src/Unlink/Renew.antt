-- ===== src/Unlink/Renew.antt =====
-- The deletion by a new PPRF key, when the old one is full.
use secure_deletion.Common.{
  ℕ, ◌≤◌, ◌<◌, ◌≡◌, ◌≢◌, refl, arith, true, none, some, ap, sym, ◌∙◌, ◌-◌, shl64, inl, inr,
  Option-cases,
}
use secure_deletion.PprfTree.{Block, pprf_keyleaf, evaluate_at_tag}
use secure_deletion.PprfTree.Shape.{IsTree}
use secure_deletion.MapCache.{CacheEntry}
use secure_deletion.KeyTable.{Ciphers, lookup, bad_magic, sealed, read_new, marked}
use secure_deletion.KeyTable.Rounds.{IsCipher, contents}
use secure_deletion.KeyTable.Resume.{IsWaiting}
use secure_deletion.KeyTable.Emptied.{none-Once, rotate_table-none}
use secure_deletion.PprfTree.Descent.{evaluate-descend, descend-keyleaf}
use secure_deletion.KeyTable.Crash.{rotate_table-sealed}
use secure_deletion.Unlink.{
  Config, FileCipher, Device, evaluated, ciphers, key_at, pprf_key_new, renewed, rotate_pprf,
  read_plain,
}
use secure_deletion.Unlink.Sound.{IsFileCipher, IsConfig, IsSound}

module _ (cfg : Config) (ok : IsConfig cfg) (prg : Block → Block × Block) (cipher : FileCipher)
    (law : IsFileCipher cipher) (stack : Block) (rd : Device) (new_key : Block) where
  open cfg use {pprf_depth, key_table_len}

  abbrev pub both : Ciphers
  both = ciphers cfg prg cipher stack rd.pprf.nodes new_key

  both-IsCipher : IsCipher both
  both-IsCipher = record {
    decrypt-encrypt = law.decrypt-encrypt;
    encrypt-decrypt = law.encrypt-decrypt;
    tag-encrypt = law.tag-encrypt;
    tag-decrypt = law.tag-decrypt;
  }

  -- No sector on the disk has the magic words under the new key by chance.
  abbrev pub IsNew : Type 0
  IsNew = (t : ℕ) → t < key_table_len → bad_magic (read_new both t (rd.table.disk t)) ≡ true

  module _ (fresh : IsNew) where
    abbrev after : Device
    after = rotate_pprf cfg prg cipher stack new_key rd

    waiting :
        (t : ℕ) → t < key_table_len → IsWaiting both t (contents both t rd.table).entries rd.table
    waiting t lt = elim (Option-cases (lookup t rd.table)) [
      | inl l ↦ (refl, inr (l, fresh t lt))
      | inr found ↦ (refl, inl found)
    ]

    disk-sealed :
        (t : ℕ)
        → t < key_table_len
        → after.table.disk t ≡ sealed both t (contents both t rd.table).entries
    unfolding rotate_pprf
    disk-sealed t lt =
        rotate_table-sealed both (λ u. (contents both u rd.table).entries) rd.table 0 key_table_len
          t both-IsCipher (λ u h. absurd (omega arith)) (λ u h h'. waiting u h') lt

    tag-after : (t : ℕ) → t < key_table_len → (after.table.disk t).tag ≡ t
    tag-after t lt = ap (λ x. x.tag) (disk-sealed t lt) ∙ law.tag-encrypt _ t _

    fresh_node : (i : ℕ) → i < 1 → (renewed new_key rd.pprf.nodes i).type ≡ pprf_keyleaf
    unfolding renewed
    fresh_node i h = ground arith

    renewed-IsTree : IsTree pprf_depth after.pprf
    unfolding rotate_pprf renewed
    renewed-IsTree = (
      λ _. record { depth = 0; bits = 0 },
      record {
        nonempty = omega arith;
        root = refl;
        node = λ i h. rw (fresh_node i h) (omega arith);
      },
    )

    counter : after.tag_counter ≡ key_table_len
    unfolding rotate_pprf
    counter = refl

    root : (tag : ℕ) → key_at cfg prg cipher stack after.pprf.nodes tag ≡ both.new_key tag
    unfolding rotate_pprf renewed evaluate_at_tag
    root tag =
        let t = shl64 tag (64 - pprf_depth) in
        let m = renewed new_key rd.pprf.nodes in
        let f = pprf_key_new new_key in
        ap (evaluated stack) (
          evaluate-descend prg m pprf_depth t
          ∙ descend-keyleaf prg m pprf_depth t 0 0 (fresh_node 0 (omega arith))
          ∙ sym (descend-keyleaf prg f pprf_depth t 0 0 refl)
          ∙ sym (evaluate-descend prg f pprf_depth t))

    module _ (sound : IsSound cfg rd) where
      pub none-after : (t : ℕ) → t < key_table_len → lookup t after.table ≡ none
      unfolding rotate_pprf
      none-after t lt = rotate_table-none both key_table_len t rd.table sound.once lt

      pub read-after :
          (t : ℕ)
          → t < key_table_len
          → read_plain cfg prg cipher stack after t ≡ marked t (contents both t rd.table).entries
      read-after t lt =
          let key = key_at cfg prg cipher stack after.pprf.nodes in
          let plain = marked t (contents both t rd.table).entries in
          ap (λ x. cipher.decrypt (key x.tag) t x) (disk-sealed t lt)
          ∙ ap (λ g. cipher.decrypt (key g) t (cipher.encrypt (both.new_key t) t plain))
              (law.tag-encrypt (both.new_key t) t plain)
          ∙ ap (λ k. cipher.decrypt k t (cipher.encrypt (both.new_key t) t plain)) (root t)
          ∙ law.decrypt-encrypt (both.new_key t) t plain

      fits-after : after.pprf.size ≤ cfg.pprf_capacity
      unfolding rotate_pprf
      fits-after = ok.some_node

      uncached : (t : ℕ) (e : CacheEntry) → t < key_table_len → lookup t after.table ≢ some e
      uncached t e lt l = let q : none ≡ some e = sym (none-after t lt) ∙ l in cc

      pub rotate_pprf-IsSound : IsSound cfg after
      rotate_pprf-IsSound = record {
        tree = renewed-IsTree;
        fits = fits-after;
        counted = omega (arith, counter, ok.tagged);
        used = λ t lt. omega (arith, counter, tag-after t lt);
        distinct = λ t u lt lu ne q. ne (sym (tag-after t lt) ∙ q ∙ tag-after u lu);
        spent = λ x lt unused.
            absurd (unused x (omega (arith, counter)) (tag-after x (omega (arith, counter))));
        cached = λ t e lt l. absurd (uncached t e lt l);
        once = λ t lt. none-Once t after.table (none-after t lt);
      }
