-- ===== src/Journal/Open.antt =====
-- The invariant of an open transaction.
use secure_deletion.Common.{
  ℕ, ◌+◌, ◌-◌, ◌≤◌, ◌<◌, ◌≡◌, refl, ◌≢◌, sym, Bool, true, false, none, some, arith, ◌==◌,
  if◌then◌else◌, List, [], ◌∷◌, ◌++◌, length, length-append,
}
use secure_deletion.Journal.{
  Words, Disk, JournalDev, set_word, write_sector, journal_commit, hp_journal_len, write_entry,
  journal_write,
}
use mathlib.Core.List.{append_assoc, append-nil}
use mathlib.Core.Path.{subst}
use secure_deletion.Journal.Replay.{IsOutside}
use secure_deletion.Journal.Queue.{
  Logged, journal_writes, IsFresh, IsTransaction, IsQueued, find_entry-fresh, IsQueued-keep,
  IsQueued-snoc,
}

-- An open transaction, on a device whose disk was `disk`: the calls made are its entries, and
-- outside the journal nothing is written yet.
pub record IsOpen (d : JournalDev) (journal_start ty : ℕ) (disk : Disk) (done : List Logged)
    (w : Words) : Type 0 where
  pub start : d.journal_start ≡ journal_start
  pub control : d.journal ≡ some w
  pub count : d.journal_entry ≡ 1 + length done
  pub tag : w 0 ≡ ty
  pub entries : IsQueued 1 journal_start done w d.disk
  pub unchanged : (a : ℕ) → IsOutside journal_start a → d.disk a ≡ disk a
  pub logged_control : d.disk journal_start ≡ disk journal_start

write_entry-fresh :
    (d : JournalDev) (done : List Logged) (w : Words) (a : ℕ) (contents : Words)
    → d.journal_entry ≡ 1 + length done
    → IsQueued 1 d.journal_start done w d.disk
    → IsFresh a done
    → write_entry d a contents w ≡ record {
      journal_start = d.journal_start;
      disk = write_sector d.disk (d.journal_start + (1 + length done)) contents;
      journal = some (set_word w (1 + length done) a);
      journal_entry = 1 + length done + 1;
    }
write_entry-fresh d done w a contents count q f =
    let l : 1 + length done - 1 ≡ length done = omega arith in
    rw (count, l, find_entry-fresh done 1 a d.journal_start w d.disk q f)

write_entry-IsOpen :
    (d : JournalDev) (ty : ℕ) (disk : Disk) (done : List Logged) (w : Words) (x : Logged)
    → d.journal_entry ≡ 1 + length done
    → w 0 ≡ ty
    → IsQueued 1 d.journal_start done w d.disk
    → ((a : ℕ) → IsOutside d.journal_start a → d.disk a ≡ disk a)
    → d.disk d.journal_start ≡ disk d.journal_start
    → IsFresh x.addr done
    → length done < 63
    → IsOpen
        (write_entry d x.addr x.contents w)
        d.journal_start
        ty
        disk
        (done ++ x ∷ [])
        (set_word w (1 + length done) x.addr)
write_entry-IsOpen d ty disk done w x count tag q same old f room =
    rw (write_entry-fresh d done w x.addr x.contents count q f) (record {
      start = refl;
      control = refl;
      count = omega (arith, length-append done (x ∷ []));
      tag = ground arith;
      entries =
          IsQueued-snoc done x 1 d.journal_start (set_word w (1 + length done) x.addr)
            (write_sector d.disk (d.journal_start + (1 + length done)) x.contents)
            (IsQueued-keep done 1 d.journal_start w (set_word w (1 + length done) x.addr) d.disk
              (write_sector d.disk (d.journal_start + (1 + length done)) x.contents)
              (λ j lo hi. ground arith) (λ j lo hi. ground arith) q)
            (ground arith) (ground arith);
      unchanged = λ a out. ground (arith, same a out);
      logged_control = ground (arith, old);
    })

-- One more call in an open transaction with room left.
journal_write-more :
    (d : JournalDev) (ty : ℕ) (disk : Disk) (done : List Logged) (w : Words) (x : Logged)
    → IsOpen d d.journal_start ty disk done w
    → IsFresh x.addr done
    → length done < 63
    → IsOpen
        (journal_write d x.addr x.contents ty x.page)
        d.journal_start
        ty
        disk
        (done ++ x ∷ [])
        (set_word w (1 + length done) x.addr)
unfolding journal_write
journal_write-more d ty disk done w x o f room =
    let few : (d.journal_entry == hp_journal_len) ≡ false = ground (arith, o.count) in
    rw (few, o.control)
      (write_entry-IsOpen d ty disk done w x o.count o.tag o.entries o.unchanged o.logged_control f
        room)

journal_commit-idle : (d : JournalDev) → d.journal ≡ none → journal_commit d ≡ d
unfolding journal_commit
journal_commit-idle d e = rw e

pub maybe_commit-idle :
    (d : JournalDev) → d.journal ≡ none → (b : Bool) → (if b then journal_commit d else d) ≡ d
maybe_commit-idle d e true = journal_commit-idle d e
maybe_commit-idle d e false = refl

-- The call that begins a transaction.
pub journal_write-first :
    (d : JournalDev) (ty : ℕ) (x : Logged)
    → d.journal ≡ none
    → IsOpen
        (journal_write d x.addr x.contents ty x.page)
        d.journal_start
        ty
        d.disk
        (x ∷ [])
        (set_word (set_word x.page 0 ty) 1 x.addr)
unfolding journal_write
journal_write-first d ty x e =
    rw (maybe_commit-idle d e (d.journal_entry == hp_journal_len), e)
      (write_entry-IsOpen (record d { journal_entry = 1 }) ty d.disk [] (set_word x.page 0 ty) x
        refl (ground arith) tt (λ a out. refl) refl tt (omega arith))

one_differs : (ys xs : List Logged) (x y : Logged) → IsFresh y.addr (ys ++ x ∷ xs) → x.addr ≢ y.addr
one_differs [] xs x y f = f.0
one_differs (z ∷ zs) xs x y f = one_differs zs xs x y f.1

later-IsFresh :
    (done xs : List Logged) (x : Logged) (journal_start : ℕ)
    → IsTransaction journal_start (done ++ x ∷ xs)
    → IsFresh x.addr done
later-IsFresh [] xs x journal_start t = tt
later-IsFresh (y ∷ ys) xs x journal_start t =
    (λ e. one_differs ys xs x y t.1 (sym e), later-IsFresh ys xs x journal_start t.2)

-- The rest of the calls.
pub journal_writes-more :
    (xs : List Logged) (d : JournalDev) (journal_start ty : ℕ) (disk : Disk) (done : List Logged)
    (w : Words)
    → IsOpen d journal_start ty disk done w
    → IsTransaction journal_start (done ++ xs)
    → length (done ++ xs) ≤ 63
    → (w' : Words) × IsOpen (journal_writes d ty xs) journal_start ty disk (done ++ xs) w'
unfolding journal_writes
journal_writes-more [] d journal_start ty disk done w o t len = rw (append-nil done) (w, o)
journal_writes-more (x ∷ xs) d journal_start ty disk done w o t len =
    let count = length-append done (x ∷ xs) in
    let fresh = later-IsFresh done xs x journal_start t in
    let next =
      subst
        (λ s.
          IsOpen d s ty disk done w
          → IsOpen (journal_write d x.addr x.contents ty x.page) s ty disk (done ++ x ∷ [])
              (set_word w (1 + length done) x.addr))
        o.start (λ o'. journal_write-more d ty disk done w x o' fresh (omega arith)) o in
    let assoc = append_assoc done (x ∷ []) xs in
    rw (← assoc) (
      journal_writes-more xs (journal_write d x.addr x.contents ty x.page) journal_start ty disk
        (done ++ x ∷ []) (set_word w (1 + length done) x.addr) next (rw assoc t) (rw assoc len))
