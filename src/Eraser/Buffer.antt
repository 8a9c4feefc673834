-- ===== src/Eraser/Buffer.antt =====
-- The loop of `eraser_init_rand_context` in dm-eraser.c that looks for a buffer: after a failure it asks
-- for four times as many bytes, in a u64, until the number is at most a page.
use secure_deletion.Common.{
  ℕ, zero, suc, ◌/◌, ◌≡◌, ◌≢◌, ◌≤◌, ◌<◌, arith, Bool, true, Bool-cases, inl, inr, leb, shl64, shr,
  if◌then◌else◌,
}

-- The constants of the module, and the kernel's page.
abbrev pub refresh_len : ℕ
refresh_len = 1048576

abbrev pub chunk_len : ℕ
chunk_len = 1

abbrev pub page_size : ℕ
page_size = 4096

-- The loop at work, after the fuel, with no buffer, or with one.
pub data Buffer : Type 0 where
  running : Buffer
  bailed : Buffer
  allocated : (max_byte max_chunk : ℕ) → Buffer

-- `kmalloc n` says whether an allocation of `n` bytes succeeds.
module _ (kmalloc : ℕ → Bool) where
  unfoldable pub find_buf : (fuel max_byte max_chunk : ℕ) → Buffer
  find_buf zero max_byte max_chunk = running
  find_buf (suc n) max_byte max_chunk =
      let rest = find_buf n (shl64 max_byte 2) (shr max_chunk 2) in
      if kmalloc max_byte
      then allocated max_byte max_chunk
      else if leb max_byte page_size
      then bailed
      else rest

  -- The loop from its start.
  unfoldable pub find_rand_buf : (fuel : ℕ) → Buffer
  find_rand_buf fuel = find_buf fuel (refresh_len / chunk_len) chunk_len

-- The number of bytes after so many failures.
abbrev grown : (rounds max_byte : ℕ) → ℕ
grown zero b = b
grown (suc n) b = grown n (shl64 b 2)

find_buf-stops :
    (kmalloc : ℕ → Bool) (n fuel b c : ℕ)
    → n < fuel
    → grown n b ≤ page_size
    → find_buf kmalloc fuel b c ≢ running
unfolding find_buf
find_buf-stops kmalloc n zero b c lt le = λ e. omega arith
find_buf-stops kmalloc zero (suc m) b c lt le = elim (Bool-cases (kmalloc b)) [
  | inl w ↦ rw w (λ e. cc)
  | inr w ↦ let small : leb b page_size ≡ true = ground arith in rw (w, small) (λ e. cc)
]
find_buf-stops kmalloc (suc n) (suc m) b c lt le = elim (Bool-cases (kmalloc b)) [
  | inl w ↦ rw w (λ e. cc)
  | inr w ↦ elim (Bool-cases (leb b page_size)) [
    | inl v ↦ rw (w, v) (λ e. cc)
    | inr v ↦ rw (w, v) (find_buf-stops kmalloc n m (shl64 b 2) (shr c 2) (omega arith) le)
  ]
]

-- Whatever `kmalloc` refuses, the loop ends after at most 23 requests: the 23rd is for no bytes, as 2^20
-- multiplied by 4 twenty-two times is 0 in a u64.
pub find_rand_buf-stops :
    (kmalloc : ℕ → Bool) (fuel : ℕ) → 23 ≤ fuel → find_rand_buf kmalloc fuel ≢ running
unfolding find_rand_buf
find_rand_buf-stops kmalloc fuel le =
    find_buf-stops kmalloc 22 fuel (refresh_len / chunk_len) chunk_len (omega arith) (omega arith)
