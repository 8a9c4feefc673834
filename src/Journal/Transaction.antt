-- ===== src/Journal/Transaction.antt =====
-- A transaction: `holepunch_journal_write` up to 63 times, then `holepunch_journal_commit`.
use secure_deletion.Common.{
  ℕ, zero, suc, ◌+◌, ◌≤◌, ◌<◌, ◌≡◌, refl, ◌≢◌, ◌∙◌, ap, false, none, arith, ◌==◌, if◌then◌else◌,
  ==_iff, List, [], ◌∷◌, length,
}
use secure_deletion.Journal.{
  Words, Disk, JournalDev, set_word, write_sector, replay_from, journal_replay, journal_commit,
  end_mark, hpj_none, journal_write, recover_journal,
}
use mathlib.Core.Path.{subst}
use secure_deletion.Journal.Replay.{IsOutside, write_sector-else}
use secure_deletion.Journal.Queue.{
  Logged, journal_writes, write_all, IsTransaction, IsQueued, IsQueued-keep,
}
use secure_deletion.Journal.Open.{IsOpen, journal_writes-more, journal_write-first}

module _ (journal_start : ℕ) (w : Words) where
  -- The replay of the entries does what the calls ask for, and stops at the end mark or when its
  -- rounds are over.
  pub replay_from-queued :
      (xs : List Logged) (n i : ℕ) (disk : Disk)
      → 1 ≤ i
      → i + n ≡ 64
      → length xs ≤ n
      → ((i + length xs < 64) → w (i + length xs) ≡ journal_start)
      → IsTransaction journal_start xs
      → IsQueued i journal_start xs w disk
      → (a : ℕ) → replay_from n i journal_start w disk a ≡ write_all xs disk a
  unfolding replay_from write_all
  replay_from-queued [] zero i disk pos e len stop t q a = refl
  replay_from-queued [] (suc n) i disk pos e len stop t q a =
      let z : i + 0 ≡ i = omega arith in
      let here : w i ≡ journal_start = rw z at (stop (omega arith)) in
      rw ((==_iff (w i) journal_start).1 here)
  replay_from-queued (x ∷ xs) zero i disk pos e len stop t q a = ground arith
  replay_from-queued (x ∷ xs) (suc n) i disk pos e len stop t q a =
      let next =
        IsQueued-keep xs (i + 1) journal_start w w disk (write_sector disk x.addr x.contents)
          (λ j lo hi. refl) (λ j lo hi. ground arith) q.2 in
      let s : i + suc (length xs) ≡ i + 1 + length xs = omega arith in
      let rest =
        replay_from-queued xs n (i + 1) (write_sector disk x.addr x.contents) (omega arith)
          (omega arith) (omega arith) (rw s at stop) t.2 next a in
      let go : (w i == journal_start) ≡ false = ground arith in rw (go, q.0, q.1) rest

write_all-cong :
    (xs : List Logged) (d e : Disk) (a : ℕ) → d a ≡ e a → write_all xs d a ≡ write_all xs e a
unfolding write_all
write_all-cong [] d e a same = same
write_all-cong (x ∷ xs) d e a same =
    write_all-cong xs (write_sector d x.addr x.contents) (write_sector e x.addr x.contents) a
      (ap (λ s. if x.addr == a then x.contents else s) same)

module _ (journal_start : ℕ) (done : List Logged) (w : Words) (disk : Disk) where
  -- The replay of the marked control block, once it is on the disk.
  replay-marked :
      IsTransaction journal_start done
      → length done ≤ 63
      → IsQueued 1 journal_start done w disk
      → (a : ℕ) → IsOutside journal_start a
      → journal_replay journal_start
          (end_mark journal_start (1 + length done) w)
          (write_sector disk journal_start (end_mark journal_start (1 + length done) w))
          a
        ≡ write_all done disk a
  unfolding journal_replay
  replay-marked t len q a out =
      let marked = end_mark journal_start (1 + length done) w in
      let logged = write_sector disk journal_start marked in
      let stop : (1 + length done < 64 → marked (1 + length done) ≡ journal_start) =
        λ lt. ground arith in
      let same : logged a ≡ disk a = ground arith in
      let queued =
        IsQueued-keep done 1 journal_start w marked disk logged (λ j lo hi. ground arith)
          (λ j lo hi. ground arith) q in
      replay_from-queued journal_start marked done 63 1 logged (omega arith) (omega arith) len stop
        t queued a
      ∙ write_all-cong done logged disk a same

control_cleared :
    (disk : Disk) (a : ℕ) (w : Words) → write_sector disk a (set_word w 0 hpj_none) a 0 ≡ hpj_none
control_cleared disk a w = ground arith

outside-control : (journal_start a : ℕ) → IsOutside journal_start a → journal_start ≢ a
outside-control journal_start a out e = omega arith

-- The device after the commit of the calls, made on `disk`.
pub record IsCommitted (d : JournalDev) (journal_start : ℕ) (disk : Disk) (done : List Logged)
    : Type 0 where
  pub applied : (a : ℕ) → IsOutside journal_start a → d.disk a ≡ write_all done disk a
  pub cleared : d.disk journal_start 0 ≡ hpj_none
  pub closed : d.journal ≡ none

-- What the commit of an open transaction leaves.
commit-IsOpen :
    (d : JournalDev) (ty : ℕ) (disk : Disk) (done : List Logged) (w : Words)
    → IsOpen d d.journal_start ty disk done w
    → IsTransaction d.journal_start done
    → length done ≤ 63
    → IsCommitted (journal_commit d) d.journal_start disk done
unfolding journal_commit
commit-IsOpen d ty disk done w o t len =
    let marked = end_mark d.journal_start (1 + length done) w in
    let replayed =
      journal_replay d.journal_start marked (write_sector d.disk d.journal_start marked) in
    rw (o.control, o.count)
      (record {
        applied = λ a out.
            write_sector-else replayed d.journal_start a (set_word marked 0 hpj_none)
              (outside-control d.journal_start a out)
            ∙ replay-marked d.journal_start done w d.disk t len o.entries a out
            ∙ write_all-cong done d.disk disk a (o.unchanged a out);
        cleared = control_cleared replayed d.journal_start marked;
        closed = refl;
      })

-- A transaction of one to 63 writes, to distinct addresses outside the journal, does what it
-- says: begun on a device without an open transaction and then committed, it leaves at every
-- address outside the journal what the writes, made one after the other, leave there; its control
-- block is cleared, and no transaction is open.
pub commit-journal_writes :
    (d : JournalDev) (ty : ℕ) (x : Logged) (xs : List Logged)
    → d.journal ≡ none
    → IsTransaction d.journal_start (x ∷ xs)
    → length (x ∷ xs) ≤ 63
    → IsCommitted (journal_commit (journal_writes d ty (x ∷ xs))) d.journal_start d.disk (x ∷ xs)
unfolding journal_writes
commit-journal_writes d ty x xs e t len =
    let opened =
      journal_writes-more xs (journal_write d x.addr x.contents ty x.page) d.journal_start ty d.disk
        (x ∷ []) (set_word (set_word x.page 0 ty) 1 x.addr) (journal_write-first d ty x e) t len in
    let w = opened.0 in
    subst
      (λ s.
        IsTransaction s (x ∷ xs)
        → IsOpen (journal_writes d ty (x ∷ xs)) s ty d.disk (x ∷ xs) w
        → IsCommitted (journal_commit (journal_writes d ty (x ∷ xs))) s d.disk (x ∷ xs))
      opened.1.start
      (λ t' o'. commit-IsOpen (journal_writes d ty (x ∷ xs)) ty d.disk (x ∷ xs) w o' t' len) t
      opened.1

recover-clear :
    (journal_start : ℕ) (disk : Disk)
    → disk journal_start 0 ≡ hpj_none
    → recover_journal journal_start disk ≡ disk
unfolding recover_journal
recover-clear journal_start disk e = rw e

-- Before the commit nothing has happened: the writes of a transaction of at most 63, to distinct
-- addresses outside the journal, change no sector outside it, and when the control block on the
-- disk was clear, a recovery after a crash before the commit leaves every sector outside the
-- journal as it was.
pub recover-uncommitted :
    (d : JournalDev) (ty : ℕ) (x : Logged) (xs : List Logged)
    → d.journal ≡ none
    → d.disk d.journal_start 0 ≡ hpj_none
    → IsTransaction d.journal_start (x ∷ xs)
    → length (x ∷ xs) ≤ 63
    → (a : ℕ) → IsOutside d.journal_start a
    → ((journal_writes d ty (x ∷ xs)).disk a ≡ d.disk a)
      × (recover_journal d.journal_start (journal_writes d ty (x ∷ xs)).disk a ≡ d.disk a)
unfolding journal_writes
recover-uncommitted d ty x xs e clear t len a out =
    let opened =
      journal_writes-more xs (journal_write d x.addr x.contents ty x.page) d.journal_start ty d.disk
        (x ∷ []) (set_word (set_word x.page 0 ty) 1 x.addr) (journal_write-first d ty x e) t len in
    let left = (journal_writes d ty (x ∷ xs)).disk in
    let still : left d.journal_start 0 ≡ hpj_none = ap (λ s. s 0) opened.1.logged_control ∙ clear in
    let same = opened.1.unchanged a out in
    (same, ap (λ s. s a) (recover-clear d.journal_start left still) ∙ same)
