-- ===== src/PprfTree.antt =====
-- The puncturable PRF key of holepunch/kernel_module/pprf-tree.{h,c}: a binary tree laid out in an
-- array of key nodes. The array is a memory from indices to nodes, so that nothing is assumed of
-- the cells past the used part. The length-doubling generator `prg` is a parameter, as it is a
-- function pointer in the source; the debug labels (HOLEPUNCH_DEBUG) are not part of a node.
pub mod Bits
pub mod Shape
pub mod Descent
pub mod Dig
pub mod Fresh
pub mod Relabel
pub mod Puncture
pub mod Walks
pub mod Erased
pub mod Contract
pub mod Sequence
mod Tests
use secure_deletion.Common.{
  ℕ, zero, suc, ◌+◌, ◌-◌, ◌/◌, ◌%◌, ◌^◌, List, [], ◌∷◌, Option, none, some, Bool, ◌==◌,
  if◌then◌else◌, shr, shl64, add32,
}

-- The 32 bytes of the union `v`: two u32 words, which `v.next` names `il` and `ir`, and the rest.
-- `v.key` is all three.
pub record Block : Type 0 where
  pub il : ℕ
  pub ir : ℕ
  pub rest : List ℕ

-- The enumeration of `type`.
pub data NodeType : Type 0 where
  pprf_internal pprf_keyleaf pprf_puncture : NodeType

pub record Keynode : Type 0 where
  pub v : Block
  pub type : NodeType

-- `struct pprf_keynode *pprf`, by index.
abbrev pub Nodes : Type 0
Nodes = ℕ → Keynode

abbrev pub update : Nodes → ℕ → Keynode → Nodes
update m i x j = if i == j then x else m j

abbrev pub set_key : Nodes → ℕ → Block → Nodes
set_key m i b = update m i (record { v = b; type = (m i).type })

abbrev pub set_type : Nodes → ℕ → NodeType → Nodes
set_type m i t = update m i (record { v = (m i).v; type = t })

abbrev pub set_next : Nodes → ℕ → ℕ → ℕ → Nodes
set_next m i l r =
    update m i (record { v = record { il = l; ir = r; rest = (m i).v.rest }; type = (m i).type })

abbrev zeros : ℕ → List ℕ
zeros zero = []
zeros (suc n) = 0 ∷ zeros n

-- What `memset(v.key, 0, PRG_INPUT_LEN)` leaves.
abbrev pub zero_block : Block
zero_block = record { il = 0; ir = 0; rest = zeros 24 }

abbrev pub clear_first : ℕ → List ℕ → List ℕ
clear_first zero l = l
clear_first (suc n) [] = []
clear_first (suc n) (x ∷ l) = 0 ∷ clear_first n l

-- A node of 36 bytes, 32 of them the block, of which a `memset` clears the first 28.
abbrev pub clear_28 : Keynode → Keynode
clear_28 x = record x { v = record { il = 0; ir = 0; rest = clear_first 20 x.v.rest } }

-- `tag & (1ull << (63 - depth))`: the bit of that weight.
abbrev pub check_bit_is_set : ℕ → ℕ → Bool
check_bit_is_set tag depth = shr tag (63 - depth) % 2 == 1

-- The state that a puncture changes: the nodes and `*pprf_size`.
pub record Pprf : Type 0 where
  pub nodes : Nodes
  pub size : ℕ

-- `init_master_key`: everything is zeroed, and the root gets `random`, the bytes that the kernel
-- generator returns. Zeroed nodes have type 0, PPRF_INTERNAL.
unfoldable pub init_master_key : Block → Pprf
init_master_key random = record {
  nodes =
      update (λ _. record { v = zero_block; type = pprf_internal }) 0
        (record { v = random; type = pprf_keyleaf });
  size = 1;
}

-- The loop of `find_key`, with the rounds left. The result is `cur` (none for NULL) and `*depth`.
unfoldable pub find_from : Nodes → ℕ → (tag depth cur : ℕ) → Option ℕ × ℕ
find_from m zero tag depth cur = (some cur, depth)
find_from m (suc n) tag depth cur = elim ((m cur).type) [
  | pprf_keyleaf ↦ (some cur, depth)
  | pprf_internal ↦
      find_from m n tag (depth + 1)
        (if check_bit_is_set tag depth then (m cur).v.ir else (m cur).v.il)
  | pprf_puncture ↦ (none, depth)
]

unfoldable pub find_key : Nodes → (pprf_depth tag : ℕ) → Option ℕ × ℕ
unfolding find_from
find_key m pprf_depth tag = find_from m pprf_depth tag 0 0

module _ (prg : Block → Block × Block) where
  -- The half of the generator's output that the tag's bit at `depth` selects, and the other half.
  abbrev pub selected : ℕ → ℕ → Block → Block
  selected tag depth b = if check_bit_is_set tag depth then (prg b).1 else (prg b).0

  abbrev pub sibling : ℕ → ℕ → Block → Block
  sibling tag depth b = if check_bit_is_set tag depth then (prg b).0 else (prg b).1

  -- The loop of `evaluate`, with the rounds left.
  unfoldable pub evaluate_loop : ℕ → (tag depth : ℕ) → Block → Block
  evaluate_loop zero tag depth b = b
  evaluate_loop (suc n) tag depth b = evaluate_loop n tag (depth + 1) (selected tag depth b)

  abbrev pub evaluate_found : Nodes → (pprf_depth tag : ℕ) → Option ℕ × ℕ → Option Block
  evaluate_found m pprf_depth tag (none, depth) = none
  evaluate_found m pprf_depth tag (some root, depth) =
      some (evaluate_loop (pprf_depth - depth) tag depth (m root).v)

  -- `none` is the return value -1, `some key` is 0 with the key written.
  unfoldable pub evaluate : Nodes → (pprf_depth tag : ℕ) → Option Block
  unfolding find_key evaluate_loop
  evaluate m pprf_depth tag = evaluate_found m pprf_depth tag (find_key m pprf_depth tag)

  unfoldable pub evaluate_at_tag : Nodes → (pprf_depth tag : ℕ) → Option Block
  unfolding evaluate
  evaluate_at_tag m pprf_depth tag = evaluate m pprf_depth (shl64 tag (64 - pprf_depth))

  -- One round of the loop of `puncture`: its writes in order, with `root` the node whose children
  -- are laid out and `size` the value of `*pprf_size`.
  abbrev pub puncture_round : Nodes → (size root tag depth : ℕ) → Block → Nodes
  puncture_round m size root tag depth b =
      let keyed = set_key m size (sibling tag depth b) in
      let linked =
        if check_bit_is_set tag depth
        then set_next keyed root size (add32 size 1)
        else set_next keyed root (add32 size 1) size in
      set_type (set_type linked size pprf_keyleaf) (size + 1) pprf_internal

  -- The loop of `puncture` with the rounds left, and the write to the last node that follows it.
  unfoldable pub puncture_loop : ℕ → Nodes → (size root tag depth : ℕ) → Block → Pprf
  puncture_loop zero m size root tag depth b = record {
    nodes = set_type m root pprf_puncture;
    size = size;
  }
  puncture_loop (suc n) m size root tag depth b =
      puncture_loop n (puncture_round m size root tag depth b) (add32 size 2) (size + 1) tag
        (depth + 1) (selected tag depth b)

  abbrev pub puncture_found : Pprf → (pprf_depth tag : ℕ) → Option ℕ × ℕ → Option ℕ × Pprf
  puncture_found p pprf_depth tag (none, depth) = (none, p)
  puncture_found p pprf_depth tag (some root, depth) = (
    some root,
    puncture_loop (pprf_depth - depth)
        (set_type (set_key p.nodes root zero_block) root pprf_internal) p.size root tag depth
        (p.nodes root).v,
  )

  -- The index returned (none for -1), and the new state.
  unfoldable pub puncture : Pprf → (pprf_depth tag : ℕ) → Option ℕ × Pprf
  unfolding find_key puncture_loop
  puncture p pprf_depth tag = puncture_found p pprf_depth tag (find_key p.nodes pprf_depth tag)

  unfoldable pub puncture_at_tag : Pprf → (pprf_depth tag : ℕ) → Option ℕ × Pprf
  unfolding puncture
  puncture_at_tag p pprf_depth tag = puncture p pprf_depth (shl64 tag (64 - pprf_depth))
