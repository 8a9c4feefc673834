-- ===== src/Unlink/Fixtures.antt =====
-- A cipher and a generator for the tests.
use secure_deletion.Common.{ℕ, ◌≡◌, refl, Bool, true, false, [], ◌==◌}
use secure_deletion.PprfTree.{Block}
use secure_deletion.MapCache.{FilekeySector}
use secure_deletion.Unlink.{FileCipher}
use secure_deletion.Unlink.Sound.{IsFileCipher}

-- A cipher that swaps the magic words, unless the key is 0.
abbrev swap_unless : Bool → FilekeySector → FilekeySector
swap_unless true x = x
swap_unless false x = record x { magic1 = x.magic2; magic2 = x.magic1 }

swap_twice : (b : Bool) (x : FilekeySector) → swap_unless b (swap_unless b x) ≡ x
swap_twice true x = refl
swap_twice false x = refl

swap-tag : (b : Bool) (x : FilekeySector) → (swap_unless b x).tag ≡ x.tag
swap-tag true x = refl
swap-tag false x = refl

abbrev pub cipher : FileCipher
cipher = record {
  encrypt = λ k sno. swap_unless (k.il == 0);
  decrypt = λ k sno. swap_unless (k.il == 0);
}

pub law : IsFileCipher cipher
law = record {
  decrypt-encrypt = λ k sno x. swap_twice (k.il == 0) x;
  encrypt-decrypt = λ k sno x. swap_twice (k.il == 0) x;
  tag-encrypt = λ k sno x. swap-tag (k.il == 0) x;
  tag-decrypt = λ k sno x. swap-tag (k.il == 0) x;
}

abbrev pub key_of : ℕ → Block
key_of n = record { il = n; ir = 0; rest = [] }

abbrev pub prg : Block → Block × Block
prg b = (b, b)
