-- ===== src/Journal/Overwrite.antt =====
-- A second write to an address in one transaction.
use secure_deletion.Common.{
  ℕ, suc, ◌+◌, ◌≡◌, refl, ◌≢◌, ◌∙◌, true, false, none, some, arith, ◌==◌, ==_iff, [], ◌∷◌,
}
use secure_deletion.Journal.{
  Words, Disk, JournalDev, set_word, write_sector, replay_from, journal_replay, journal_commit,
  hp_journal_len, hpj_none, find_entry, write_entry, journal_write,
}
use secure_deletion.Journal.Replay.{IsOutside, write_sector-else}
use secure_deletion.Journal.Queue.{Logged, journal_writes}
use secure_deletion.Journal.Open.{maybe_commit-idle}

replay-two :
    (n journal_start : ℕ) (w : Words) (disk : Disk)
    → w 1 ≢ journal_start
    → w 2 ≢ journal_start
    → w 3 ≡ journal_start
    → replay_from (suc (suc (suc n))) 1 journal_start w disk
      ≡ write_sector
          (write_sector disk (w 1) (disk (journal_start + 1)))
          (w 2)
          (write_sector disk (w 1) (disk (journal_start + 1)) (journal_start + 2))
unfolding replay_from
replay-two n journal_start w disk one two three =
    let a : (w 1 == journal_start) ≡ false = ground arith in
    let b : (w 2 == journal_start) ≡ false = ground arith in
    let c : (w 3 == journal_start) ≡ true = ground arith in rw (a, b, c)

replayed-stale :
    (journal_start : ℕ) (w : Words) (disk : Disk) (a : ℕ)
    → w 1 ≡ a
    → IsOutside journal_start a
    → IsOutside journal_start (w 2)
    → w 2 ≢ a
    → w 3 ≡ journal_start
    → journal_replay journal_start w disk (w 2) ≡ disk (journal_start + 2)
unfolding journal_replay
replayed-stale journal_start w disk a one out stale differs three =
    rw (replay-two 60 journal_start w disk (omega arith) (omega arith) three) (ground arith)

-- The second write takes the first entry again.
write_entry-again :
    (d : JournalDev) (a : ℕ) (contents w : Words)
    → d.journal_entry ≡ 2
    → w 1 ≡ a
    → write_entry d a contents w ≡ record {
      journal_start = d.journal_start;
      disk = write_sector d.disk (d.journal_start + 1) contents;
      journal = some (set_word w 1 a);
      journal_entry = 3;
    }
unfolding find_entry
write_entry-again d a contents w count one =
    let here : (w 1 == a) ≡ true = (==_iff (w 1) a).1 one in rw (count, here)

journal_write-again :
    (d : JournalDev) (ty : ℕ) (x : Logged) (w : Words)
    → d.journal ≡ some w
    → d.journal_entry ≡ 2
    → w 1 ≡ x.addr
    → journal_write d x.addr x.contents ty x.page ≡ record {
      journal_start = d.journal_start;
      disk = write_sector d.disk (d.journal_start + 1) x.contents;
      journal = some (set_word w 1 x.addr);
      journal_entry = 3;
    }
unfolding journal_write
journal_write-again d ty x w opened count one =
    let few : (d.journal_entry == hp_journal_len) ≡ false = ground arith in
    rw (few, opened) (write_entry-again d x.addr x.contents w count one)

commit-stale :
    (d : JournalDev) (w : Words) (a : ℕ)
    → d.journal ≡ some w
    → d.journal_entry ≡ 3
    → w 1 ≡ a
    → IsOutside d.journal_start a
    → IsOutside d.journal_start (w 2)
    → w 2 ≢ a
    → (journal_commit d).disk (w 2) ≡ d.disk (d.journal_start + 2)
unfolding journal_commit
commit-stale d w a opened count one out stale differs =
    let marked = set_word w 3 d.journal_start in
    let logged = write_sector d.disk d.journal_start marked in
    rw (opened, count)
      (write_sector-else (journal_replay d.journal_start marked logged) d.journal_start (w 2)
          (set_word marked 0 hpj_none) (λ e. omega arith)
        ∙ replayed-stale d.journal_start marked logged a one out stale differs refl
        ∙ write_sector-else d.disk d.journal_start (d.journal_start + 2) marked (omega arith))

first_device :
    (d : JournalDev) (ty : ℕ) (x : Logged)
    → d.journal ≡ none
    → journal_write d x.addr x.contents ty x.page ≡ record {
      journal_start = d.journal_start;
      disk = write_sector d.disk (d.journal_start + 1) x.contents;
      journal = some (set_word (set_word x.page 0 ty) 1 x.addr);
      journal_entry = 2;
    }
unfolding journal_write find_entry
first_device d ty x e = rw (maybe_commit-idle d e (d.journal_entry == hp_journal_len), e)

-- `holepunch_journal_write` counts one more entry also when it wrote over an earlier one, and the
-- word of the entry that is skipped keeps what the page of the control block held. When two writes
-- to one address, outside the journal, are all of a transaction, and that word names another sector
-- outside the journal, then the commit leaves in that sector, which no call wrote, what the second
-- sector after the control block held.
pub overwrite-stale :
    (d : JournalDev) (ty : ℕ) (x y : Logged)
    → d.journal ≡ none
    → IsOutside d.journal_start x.addr
    → y.addr ≡ x.addr
    → IsOutside d.journal_start (x.page 2)
    → x.page 2 ≢ x.addr
    → (journal_commit (journal_writes d ty (x ∷ y ∷ []))).disk (x.page 2)
      ≡ d.disk (d.journal_start + 2)
unfolding journal_writes
overwrite-stale d ty x y e out same stale differs =
    let w = set_word (set_word x.page 0 ty) 1 x.addr in
    let once = write_sector d.disk (d.journal_start + 1) x.contents in
    let twice = write_sector once (d.journal_start + 1) y.contents in
    rw (first_device d ty x e, same)
      (rw
        (journal_write-again
          (record {
            journal_start = d.journal_start;
            disk = write_sector d.disk (d.journal_start + 1) x.contents;
            journal = some w;
            journal_entry = 2;
          })
          ty (record y { addr = x.addr }) w refl refl refl)
        (commit-stale
            (record {
              journal_start = d.journal_start;
              disk = twice;
              journal = some (set_word w 1 x.addr);
              journal_entry = 3;
            })
            (set_word w 1 x.addr) x.addr refl refl refl out stale differs
          ∙ write_sector-else once (d.journal_start + 1) (d.journal_start + 2) y.contents
              (omega arith)
          ∙ write_sector-else d.disk (d.journal_start + 1) (d.journal_start + 2) x.contents
              (omega arith)))
