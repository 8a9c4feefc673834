-- ===== src/Journal/Replay.antt =====
-- What a replay leaves on the disk.
use secure_deletion.Common.{
  ℕ, zero, suc, ◌+◌, ◌≤◌, ◌<◌, ◌≡◌, refl, ◌≢◌, ◌⊎◌, inl, inr, ◌∙◌, sym, true, false, Option, none,
  some, arith, ◌==◌, if◌then◌else◌, Bool-cases,
}
use secure_deletion.Journal.{Words, Disk, write_sector, replay_from}

-- An address outside the journal.
abbrev pub IsOutside : (journal_start a : ℕ) → Type 0
IsOutside journal_start a = (a < journal_start) ⊎ (journal_start + 64 ≤ a)

pub write_sector-else :
    (disk : Disk) (a b : ℕ) (w : Words) → a ≢ b → write_sector disk a w b ≡ disk b
write_sector-else disk a b w n = ground arith

-- Every entry before the end mark addresses a sector outside the journal.
abbrev pub IsLogged : (journal_start : ℕ) → Words → Type 0
IsLogged journal_start w =
    (i : ℕ) → 1 ≤ i → i < 64 → w i ≢ journal_start → IsOutside journal_start (w i)

-- Entry `i`, unless a later one is for the same address.
abbrev pub or_entry : (i : ℕ) → Words → (a : ℕ) → Option ℕ → Option ℕ
or_entry i w a none = if w i == a then some i else none
or_entry i w a (some k) = some k

-- The last entry for an address, from `i` on, with the rounds left.
pub pending : ℕ → (i journal_start : ℕ) → Words → (a : ℕ) → Option ℕ
pending zero i journal_start w a = none
pending (suc n) i journal_start w a =
    if w i == journal_start then none else or_entry i w a (pending n (i + 1) journal_start w a)

-- The contents that an entry, if any, leaves at an address.
abbrev pub written : (journal_start : ℕ) → Disk → (a : ℕ) → Option ℕ → Words
written journal_start disk a none = disk a
written journal_start disk a (some k) = disk (journal_start + k)

-- An entry of the journal, if there is one, is one of its 63.
abbrev pub IsEntry : (lo hi : ℕ) → Option ℕ → Type 0
IsEntry lo hi none = Unit
IsEntry lo hi (some k) = (lo ≤ k) × (k < hi)

or_entry-IsEntry :
    (i n : ℕ) (w : Words) (a : ℕ) (o : Option ℕ)
    → IsEntry (i + 1) (i + 1 + n) o
    → IsEntry i (i + suc n) (or_entry i w a o)
or_entry-IsEntry i n w a none h = elim (Bool-cases (w i == a)) [
  | inl e ↦ rw e (omega arith)
  | inr e ↦ rw e tt
]
or_entry-IsEntry i n w a (some k) h = omega arith

pub pending-IsEntry :
    (n i journal_start : ℕ) (w : Words) (a : ℕ) → IsEntry i (i + n) (pending n i journal_start w a)
unfolding pending
pending-IsEntry zero i journal_start w a = tt
pending-IsEntry (suc n) i journal_start w a = elim (Bool-cases (w i == journal_start)) [
  | inl e ↦ rw e tt
  | inr e ↦ rw e (
      or_entry-IsEntry i n w a (pending n (i + 1) journal_start w a)
        (pending-IsEntry n (i + 1) journal_start w a))
]

module _ (journal_start : ℕ) (w : Words) (logged : IsLogged journal_start w) where
  written-step :
      (n i : ℕ) (disk : Disk)
      → 1 ≤ i
      → i + suc n ≤ 64
      → (w i == journal_start) ≡ false
      → (a : ℕ) (o : Option ℕ) → IsEntry (i + 1) (i + 1 + n) o
      → written journal_start (write_sector disk (w i) (disk (journal_start + i))) a o
        ≡ written journal_start disk a (or_entry i w a o)
  written-step n i disk pos fits e a none h = ground arith
  written-step n i disk pos fits e a (some k) h = ground (arith, logged i pos)

  -- A replay leaves at every address what the last entry for it holds, and changes nothing else.
  pub replay_from-pending :
      (n i : ℕ) (disk : Disk)
      → 1 ≤ i
      → i + n ≤ 64
      → (a : ℕ)
      → replay_from n i journal_start w disk a
        ≡ written journal_start disk a (pending n i journal_start w a)
  unfolding pending replay_from
  replay_from-pending zero i disk pos fits a = refl
  replay_from-pending (suc n) i disk pos fits a = elim (Bool-cases (w i == journal_start)) [
    | inl e ↦ rw e
    | inr e ↦ rw e (
        replay_from-pending n (i + 1) (write_sector disk (w i) (disk (journal_start + i)))
          (omega arith) (omega arith) a
        ∙ written-step n i disk pos fits e a (pending n (i + 1) journal_start w a)
            (pending-IsEntry n (i + 1) journal_start w a))
  ]

  -- No entry is for a sector of the journal.
  pub pending-journal :
      (n i k : ℕ)
      → 1 ≤ i
      → i + n ≤ 64
      → k < 64
      → pending n i journal_start w (journal_start + k) ≡ none
  unfolding pending
  pending-journal zero i k pos fits lt = refl
  pending-journal (suc n) i k pos fits lt = elim (Bool-cases (w i == journal_start)) [
    | inl e ↦ rw e
    | inr e ↦
        rw (e, pending-journal n (i + 1) k (omega arith) (omega arith) lt)
          (ground (arith, logged i pos))
  ]

or_entry-none : (i : ℕ) (w : Words) (a : ℕ) (o : Option ℕ) → or_entry i w a o ≡ none → o ≡ none
or_entry-none i w a none e = refl
or_entry-none i w a (some k) e = e

or_entry-here :
    (i : ℕ) (w : Words) (a : ℕ) (o : Option ℕ)
    → or_entry i w a o ≡ none
    → or_entry i w a none ≡ none
or_entry-here i w a none e = e
or_entry-here i w a (some k) e = ground arith

pending-next :
    (n i journal_start : ℕ) (w : Words) (a : ℕ)
    → (w i == journal_start) ≡ false
    → pending (suc n) i journal_start w a ≡ or_entry i w a (pending n (i + 1) journal_start w a)
unfolding pending
pending-next n i journal_start w a go = rw go

pending-zero : (i journal_start : ℕ) (w : Words) (a : ℕ) → pending zero i journal_start w a ≡ none
unfolding pending
pending-zero i journal_start w a = refl

pub pending-stop :
    (n i journal_start : ℕ) (w : Words) (a : ℕ)
    → (w i == journal_start) ≡ true
    → pending n i journal_start w a ≡ none
unfolding pending
pending-stop zero i journal_start w a stop = refl
pending-stop (suc n) i journal_start w a stop = rw stop

-- An address that has no entry in the whole loop has none in a shorter one.
pub pending-shorter :
    (n m i journal_start : ℕ) (w : Words) (a : ℕ)
    → pending (n + m) i journal_start w a ≡ none
    → pending n i journal_start w a ≡ none
pending-shorter zero m i journal_start w a e = pending-zero i journal_start w a
pending-shorter (suc n) m i journal_start w a e = elim (Bool-cases (w i == journal_start)) [
  | inl stop ↦ pending-stop (suc n) i journal_start w a stop
  | inr go ↦
      let q : suc n + m ≡ suc (n + m) = omega arith in
      let whole : or_entry i w a (pending (n + m) (i + 1) journal_start w a) ≡ none =
        sym (pending-next (n + m) i journal_start w a go) ∙ (rw q at e) in
      let rest =
        pending-shorter n m (i + 1) journal_start w a
          (or_entry-none i w a (pending (n + m) (i + 1) journal_start w a) whole) in
      rw (pending-next n i journal_start w a go, rest)
        (or_entry-here i w a (pending (n + m) (i + 1) journal_start w a) whole)
]
