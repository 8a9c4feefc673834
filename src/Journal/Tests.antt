-- ===== src/Journal/Tests.antt =====
-- A small journal, and the theorems there.
use secure_deletion.Common.{
  ℕ, ◌+◌, ◌≡◌, refl, inl, none, some, arith, ◌==◌, if◌then◌else◌, List, [], ◌∷◌,
}
use secure_deletion.Journal.{
  Words, Disk, JournalDev, write_sector, replay_from, journal_commit, end_mark, recover_journal,
  journal_write, find_entry, journal_replay,
}
use secure_deletion.Journal.Replay.{IsLogged}
use secure_deletion.Journal.Crash.{Crashed, logged, stopped, recover-committed}
use secure_deletion.Journal.Queue.{Logged, journal_writes, write_all, IsTransaction}
use secure_deletion.Journal.Transaction.{IsCommitted, commit-journal_writes, recover-uncommitted}
use secure_deletion.Journal.Overwrite.{overwrite-stale}

-- Sector `a` holds `a` in every word, but the control block is clear.
abbrev disk : Disk
disk a j = if a == 1 then 0 else a

abbrev device : JournalDev
device = record { journal_start = 1; disk = disk; journal = none; journal_entry = 0 }

-- What the pages held: 90 in every word.
abbrev page : Words
page j = 90

abbrev first : Logged
first = record { addr = 70; contents = λ j. 700 + j; page = page }

abbrev second : Logged
second = record { addr = 0; contents = λ j. 5; page = page }

abbrev third : Logged
third = record { addr = 71; contents = λ j. 710 + j; page = page }

abbrev calls : List Logged
calls = first ∷ second ∷ third ∷ []

calls-IsTransaction : IsTransaction 1 calls
calls-IsTransaction = ground arith

program : Unit {0}
unfolding journal_write journal_commit find_entry journal_replay recover_journal journal_writes
    write_all
program = tt

-- The calls, committed, reach their sectors ...
committed_header : ◌≡◌ {A = ℕ} ((journal_commit (journal_writes device 4 calls)).disk 0 3) 5
unfolding program
committed_header = refl

committed_third : ◌≡◌ {A = ℕ} ((journal_commit (journal_writes device 4 calls)).disk 71 3) 713
unfolding program
committed_third = refl

-- ... and the stale word of the page is not followed.
committed_stale : ◌≡◌ {A = ℕ} ((journal_commit (journal_writes device 4 calls)).disk 90 3) 90
unfolding program
committed_stale = refl

commit-journal_writes_example :
    IsCommitted (journal_commit (journal_writes device 4 calls)) 1 disk calls
commit-journal_writes_example =
    commit-journal_writes device 4 first (second ∷ third ∷ []) refl calls-IsTransaction
      (omega arith)

recover-uncommitted_example :
    ((journal_writes device 4 calls).disk 70 ≡ disk 70)
    × (recover_journal 1 (journal_writes device 4 calls).disk 70 ≡ disk 70)
recover-uncommitted_example =
    recover-uncommitted device 4 first (second ∷ third ∷ []) refl refl calls-IsTransaction
      (omega arith) 70 (omega arith)

-- A control block with two entries.
abbrev control : Words
control j = if j == 0 then 4 else (if j == 1 then 70 else (if j == 2 then 0 else 90))

abbrev before_commit : JournalDev
before_commit = record { journal_start = 1; disk = disk; journal = some control; journal_entry = 3 }

control-IsLogged : IsLogged 1 (end_mark 1 3 control)
control-IsLogged i lo hi n = ground arith

-- The commit crashes after two rounds of its replay, and the recovery after one.
abbrev crashed : Disk
crashed =
    replay_from 1 1 1 (end_mark 1 3 control)
      (replay_from 2 1 1 (end_mark 1 3 control) (write_sector disk 1 (end_mark 1 3 control)))

crashed-Crashed :
    Crashed 1 (end_mark 1 3 control) (write_sector disk 1 (end_mark 1 3 control)) crashed
crashed-Crashed = stopped 1 62 _ refl (stopped 2 61 _ refl logged)

recover-committed_example : recover_journal 1 crashed 70 ≡ (journal_commit before_commit).disk 70
recover-committed_example =
    recover-committed before_commit control refl (omega arith) (inl refl) control-IsLogged crashed
      crashed-Crashed 70

overwrite-stale_example :
    (journal_commit (journal_writes device 5 (first ∷ record third { addr = 70 } ∷ []))).disk 90
    ≡ disk 3
overwrite-stale_example =
    overwrite-stale device 5 first (record third { addr = 70 }) refl (omega arith) refl
      (omega arith) (omega arith)
