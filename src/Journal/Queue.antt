-- ===== src/Journal/Queue.antt =====
-- The calls of a transaction and the entries that they become.
use secure_deletion.Common.{
  ℕ, suc, ◌+◌, ◌≤◌, ◌<◌, ◌≡◌, ◌≢◌, ◌∙◌, arith, List, [], ◌∷◌, ◌++◌, length,
}
use secure_deletion.Journal.{Words, Disk, JournalDev, write_sector, find_entry, journal_write}
use secure_deletion.Journal.Replay.{IsOutside}

-- One call of `holepunch_journal_write`: the address, the contents, and what the page of a new
-- control block held.
pub record Logged : Type 0 where
  pub addr : ℕ
  pub contents : Words
  pub page : Words

-- The calls one after the other.
unfoldable pub journal_writes : JournalDev → (ty : ℕ) → List Logged → JournalDev
journal_writes d ty [] = d
journal_writes d ty (x ∷ xs) = journal_writes (journal_write d x.addr x.contents ty x.page) ty xs

-- What the calls ask for: each sector written in its turn.
unfoldable pub write_all : List Logged → Disk → Disk
write_all [] disk = disk
write_all (x ∷ xs) disk = write_all xs (write_sector disk x.addr x.contents)

-- The address is none of those.
abbrev pub IsFresh : ℕ → List Logged → Type 0
IsFresh a [] = Unit
IsFresh a (x ∷ xs) = (x.addr ≢ a) × IsFresh a xs

-- All addresses differ, and lie outside the journal.
abbrev pub IsTransaction : (journal_start : ℕ) → List Logged → Type 0
IsTransaction journal_start [] = Unit
IsTransaction journal_start (x ∷ xs) =
    IsOutside journal_start x.addr × IsFresh x.addr xs × IsTransaction journal_start xs

-- The entries from `i` on hold the calls, in their order.
abbrev pub IsQueued : (i journal_start : ℕ) → List Logged → Words → Disk → Type 0
IsQueued i journal_start [] w disk = Unit
IsQueued i journal_start (x ∷ xs) w disk =
    (w i ≡ x.addr)
    × (disk (journal_start + i) ≡ x.contents)
    × IsQueued (i + 1) journal_start xs w disk

-- A search for an address that no entry has runs to the end.
pub find_entry-fresh :
    (xs : List Logged) (i a journal_start : ℕ) (w : Words) (disk : Disk)
    → IsQueued i journal_start xs w disk
    → IsFresh a xs
    → find_entry (length xs) i a w ≡ i + length xs
unfolding find_entry
find_entry-fresh [] i a journal_start w disk q f = omega arith
find_entry-fresh (x ∷ xs) i a journal_start w disk q f =
    let rest = find_entry-fresh xs (i + 1) a journal_start w disk q.2 f.1 in ground arith

-- Entries stay when words and sectors past them change.
pub IsQueued-keep :
    (xs : List Logged) (i journal_start : ℕ) (w w' : Words) (disk disk' : Disk)
    → ((j : ℕ) → i ≤ j → j < i + length xs → w' j ≡ w j)
    → ((j : ℕ) → i ≤ j → j < i + length xs → disk' (journal_start + j) ≡ disk (journal_start + j))
    → IsQueued i journal_start xs w disk
    → IsQueued i journal_start xs w' disk'
IsQueued-keep [] i journal_start w w' disk disk' kw kd q = tt
IsQueued-keep (x ∷ xs) i journal_start w w' disk disk' kw kd q = (
  kw i (omega arith) (omega arith) ∙ q.0,
  kd i (omega arith) (omega arith) ∙ q.1,
  IsQueued-keep xs (i + 1) journal_start w w' disk disk'
      (λ j lo hi. kw j (omega arith) (omega arith)) (λ j lo hi. kd j (omega arith) (omega arith))
      q.2,
)

-- One more entry at the end.
pub IsQueued-snoc :
    (xs : List Logged) (y : Logged) (i journal_start : ℕ) (w : Words) (disk : Disk)
    → IsQueued i journal_start xs w disk
    → w (i + length xs) ≡ y.addr
    → disk (journal_start + (i + length xs)) ≡ y.contents
    → IsQueued i journal_start (xs ++ y ∷ []) w disk
IsQueued-snoc [] y i journal_start w disk q ew ed =
    let e : i + 0 ≡ i = omega arith in (rw e at ew, rw e at ed, tt)
IsQueued-snoc (x ∷ xs) y i journal_start w disk q ew ed =
    let e : i + suc (length xs) ≡ i + 1 + length xs = omega arith in
    (q.0, q.1, IsQueued-snoc xs y (i + 1) journal_start w disk q.2 (rw e at ew) (rw e at ed))
