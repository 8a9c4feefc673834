-- ===== src/Journal/Crash.antt =====
-- A crash during or before a replay, and the recovery at the next start.
use secure_deletion.Common.{
  ℕ, ◌+◌, ◌≤◌, ◌<◌, ◌≡◌, refl, ◌⊎◌, inl, inr, ◌∙◌, ap, sym, true, Option, none, some, arith, ◌==◌,
  if◌then◌else◌, ◌||◌, ==_iff,
}
use secure_deletion.Journal.{
  Words, Disk, JournalDev, set_word, write_sector, replay_from, journal_replay, journal_commit,
  end_mark, recover_journal, hpj_none,
}
use secure_deletion.Journal.Replay.{
  IsLogged, IsEntry, written, pending, pending-IsEntry, replay_from-pending, pending-journal,
  pending-shorter,
}

module _ (journal_start : ℕ) (w : Words) (logged : IsLogged journal_start w) where
  -- A replay changes no sector of the journal.
  pub replay_from-journal :
      (n k : ℕ) (disk : Disk)
      → n ≤ 63
      → k < 64
      → replay_from n 1 journal_start w disk (journal_start + k) ≡ disk (journal_start + k)
  replay_from-journal n k disk few lt =
      replay_from-pending journal_start w logged n 1 disk (omega arith) (omega arith)
        (journal_start + k)
      ∙ ap (written journal_start disk (journal_start + k))
          (pending-journal journal_start w logged n 1 k (omega arith) (omega arith) lt)

  written-again :
      (n m : ℕ) (disk : Disk)
      → n + m ≡ 63
      → (a : ℕ) (o : Option ℕ) → pending (n + m) 1 journal_start w a ≡ o
      → IsEntry 1 64 o
      → written journal_start (replay_from n 1 journal_start w disk) a o
        ≡ written journal_start disk a o
  written-again n m disk e a none p h =
      replay_from-pending journal_start w logged n 1 disk (omega arith) (omega arith) a
      ∙ ap (written journal_start disk a) (pending-shorter n m 1 journal_start w a p)
  written-again n m disk e a (some k) p h = replay_from-journal n k disk (omega arith) (omega arith)

  pub replay-again :
      (n m : ℕ) (disk : Disk)
      → n + m ≡ 63
      → (a : ℕ)
      → journal_replay journal_start w (replay_from n 1 journal_start w disk) a
        ≡ journal_replay journal_start w disk a
  unfolding journal_replay
  replay-again n m disk e a =
      replay_from-pending journal_start w logged 63 1 (replay_from n 1 journal_start w disk)
        (omega arith) (omega arith) a
      ∙ written-again n m disk e a (pending 63 1 journal_start w a)
          (ap (λ l. pending l 1 journal_start w a) e) (pending-IsEntry 63 1 journal_start w a)
      ∙ sym (replay_from-pending journal_start w logged 63 1 disk (omega arith) (omega arith) a)

-- The disks that crashes leave: a replay, started on the disk or on what an earlier crash left,
-- stops after some of its rounds.
pub data Crashed (journal_start : ℕ) (w : Words) (disk : Disk) : Disk → Type 0 where
  logged : Crashed journal_start w disk disk
  stopped :
      (n m : ℕ) (d : Disk)
      → n + m ≡ 63
      → Crashed journal_start w disk d
      → Crashed journal_start w disk (replay_from n 1 journal_start w d)

module _ (journal_start : ℕ) (w : Words) (logs : IsLogged journal_start w) (disk : Disk) where
  Crashed-replay :
      (d : Disk)
      → Crashed journal_start w disk d
      → (a : ℕ) → journal_replay journal_start w d a ≡ journal_replay journal_start w disk a
  Crashed-replay d logged a = refl
  Crashed-replay d (stopped n m d' e c) a =
      replay-again journal_start w logs n m d' e a ∙ Crashed-replay d' c a

  Crashed-control :
      (d : Disk) → Crashed journal_start w disk d → d journal_start ≡ disk journal_start
  Crashed-control d logged = refl
  Crashed-control d (stopped n m d' e c) =
      let q : journal_start + 0 ≡ journal_start = omega arith in
      (rw q at (replay_from-journal journal_start w logs n 0 d' (omega arith) (omega arith)))
      ∙ Crashed-control d' c

-- The types of a control block that recovery replays.
abbrev pub IsReplayed : Words → Type 0
IsReplayed w = (w 0 ≡ 4) ⊎ (w 0 ≡ 5)

IsReplayed-test : (w : Words) → IsReplayed w → (w 0 == 4 || w 0 == 5) ≡ true
IsReplayed-test w (inl e) = rw e
IsReplayed-test w (inr e) = rw e

write_sector-here : (disk : Disk) (a : ℕ) (w : Words) → write_sector disk a w a ≡ w
write_sector-here disk a w = rw ((==_iff a a).1 refl)

recovered :
    (journal_start : ℕ) (w : Words) (logs : IsLogged journal_start w) (disk d : Disk)
    → disk journal_start ≡ w
    → IsReplayed w
    → Crashed journal_start w disk d
    → (a : ℕ)
    → recover_journal journal_start d a
      ≡ write_sector (journal_replay journal_start w disk) journal_start (set_word w 0 hpj_none) a
unfolding recover_journal
recovered journal_start w logs disk d e ty c a =
    let control : d journal_start ≡ w = Crashed-control journal_start w logs disk d c ∙ e in
    let replayed = Crashed-replay journal_start w logs disk d c a in
    rw (control, IsReplayed-test w ty)
      (ap (λ r. if journal_start == a then set_word w 0 hpj_none else r) replayed)

marked-type :
    (journal_start journal_entry : ℕ) (w : Words)
    → 1 ≤ journal_entry
    → end_mark journal_start journal_entry w 0 ≡ w 0
marked-type journal_start journal_entry w pos = ground arith

-- Once `holepunch_journal_commit` has written the control block, the transaction is durable: if it
-- crashes after any number of rounds of its replay, and so does every recovery that follows, any
-- number of times, then a recovery that runs to its end leaves the disk that the commit leaves
-- when nothing crashes. The entries must address sectors outside the journal, and the type be one
-- that recovery replays.
pub recover-committed :
    (d : JournalDev) (w : Words)
    → d.journal ≡ some w
    → 1 ≤ d.journal_entry
    → IsReplayed w
    → IsLogged d.journal_start (end_mark d.journal_start d.journal_entry w)
    → (left : Disk)
    → Crashed d.journal_start
        (end_mark d.journal_start d.journal_entry w)
        (write_sector d.disk d.journal_start (end_mark d.journal_start d.journal_entry w))
        left
    → (a : ℕ) → recover_journal d.journal_start left a ≡ (journal_commit d).disk a
unfolding journal_commit
recover-committed d w e pos ty logs left c a =
    let marked = end_mark d.journal_start d.journal_entry w in
    rw e (
      recovered d.journal_start marked logs (write_sector d.disk d.journal_start marked) left
        (write_sector-here d.disk d.journal_start marked)
        (rw (marked-type d.journal_start d.journal_entry w pos) ty) c a)
