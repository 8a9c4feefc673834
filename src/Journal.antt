-- ===== src/Journal.antt =====
-- The write-ahead journal of holepunch/kernel_module/dm-holepunch-main.c (HOLEPUNCH_JOURNAL).
-- A sector is its u64 words by index; the disk is its sectors by number. Pages come from a pool
-- with whatever they held before, so the contents of a fresh page are an argument.
pub mod Replay
pub mod Crash
pub mod Queue
pub mod Open
pub mod Transaction
pub mod Overwrite
mod Tests
use secure_deletion.Common.{
  ℕ, zero, suc, ◌+◌, ◌-◌, ◌||◌, Bool, true, false, Option, none, some, ◌==◌, ltb, if◌then◌else◌,
}

abbrev pub Words : Type 0
Words = ℕ → ℕ

abbrev pub Disk : Type 0
Disk = ℕ → Words

abbrev pub hp_journal_len : ℕ
hp_journal_len = 64

-- The types of a journal entry, the first word of the control block.
abbrev pub hpj_none : ℕ
hpj_none = 0

abbrev pub hpj_pprf_punct : ℕ
hpj_pprf_punct = 4

abbrev pub hpj_generic : ℕ
hpj_generic = 5

abbrev pub set_word : Words → ℕ → ℕ → Words
set_word w i v j = if i == j then v else w j

-- `eraser_write_sector`
abbrev pub write_sector : Disk → ℕ → Words → Disk
write_sector disk a w b = if a == b then w else disk b

-- The part of `struct holepunch_dev` that the journal uses; `journal` is NULL at none.
pub record JournalDev : Type 0 where
  pub journal_start : ℕ
  pub disk : Disk
  pub journal : Option Words
  pub journal_entry : ℕ

-- The loop of `holepunch_journal_replay` at index `i`, with the rounds left.
unfoldable pub replay_from : ℕ → (i journal_start : ℕ) → Words → Disk → Disk
replay_from zero i journal_start journal disk = disk
replay_from (suc n) i journal_start journal disk =
    let rest =
      replay_from n (i + 1) journal_start journal
        (write_sector disk (journal i) (disk (journal_start + i))) in
    if journal i == journal_start then disk else rest

unfoldable pub journal_replay : (journal_start : ℕ) → Words → Disk → Disk
unfolding replay_from
journal_replay journal_start journal disk =
    replay_from (hp_journal_len - 1) 1 journal_start journal disk

-- The end mark that `holepunch_journal_commit` puts behind the last entry, if there is room.
abbrev pub end_mark : (journal_start journal_entry : ℕ) → Words → Words
end_mark journal_start journal_entry w =
    if ltb journal_entry hp_journal_len then set_word w journal_entry journal_start else w

abbrev pub commit_words : JournalDev → Words → JournalDev
commit_words d w =
    let marked = end_mark d.journal_start d.journal_entry w in
    let logged = write_sector d.disk d.journal_start marked in
    let replayed = journal_replay d.journal_start marked logged in
    record d {
      disk = write_sector replayed d.journal_start (set_word marked 0 hpj_none);
      journal = none;
    }

abbrev pub commit_journal : JournalDev → Option Words → JournalDev
commit_journal d none = d
commit_journal d (some w) = commit_words d w

-- `holepunch_journal_commit`
unfoldable pub journal_commit : JournalDev → JournalDev
journal_commit d = commit_journal d d.journal

-- The search for an earlier write to the same address, from `i` with the entries left.
unfoldable pub find_entry : ℕ → (i addr : ℕ) → Words → ℕ
find_entry zero i addr w = i
find_entry (suc n) i addr w = if w i == addr then i else find_entry n (i + 1) addr w

abbrev pub write_entry : JournalDev → (addr : ℕ) → Words → Words → JournalDev
write_entry d addr contents w =
    let i = find_entry (d.journal_entry - 1) 1 addr w in
    record d {
      disk = write_sector d.disk (d.journal_start + i) contents;
      journal = some (set_word w i addr);
      journal_entry = d.journal_entry + 1;
    }

-- Begins a transaction if there is none, on the fresh page.
abbrev pub open_journal :
    JournalDev → (addr : ℕ) → Words → (ty : ℕ) → (page : Words) → Option Words → JournalDev
open_journal d addr contents ty page none =
    write_entry (record d { journal_entry = 1 }) addr contents (set_word page 0 ty)
open_journal d addr contents ty page (some w) = write_entry d addr contents w

-- `holepunch_journal_write`
unfoldable pub journal_write :
    JournalDev → (addr : ℕ) → Words → (ty : ℕ) → (page : Words) → JournalDev
journal_write d addr contents ty page =
    let d' = if d.journal_entry == hp_journal_len then journal_commit d else d in
    open_journal d' addr contents ty page d'.journal

-- The branches of `eraser_ctr` that recover a logged transaction: the control block is read from
-- the disk, and `holepunch_journal_replay` runs for the types that log sectors.
unfoldable pub recover_journal : (journal_start : ℕ) → Disk → Disk
recover_journal journal_start disk =
    let w = disk journal_start in
    if w 0 == hpj_pprf_punct || w 0 == hpj_generic
    then write_sector (journal_replay journal_start w disk) journal_start (set_word w 0 hpj_none)
    else disk
