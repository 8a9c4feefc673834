-- ===== src/Lifecycle/Ledger.antt =====
-- Acquiring and releasing: what a ledger is after a family of resources came or went.
use mathlib.Core.Path.{subst}
use secure_deletion.Common.{
  ℕ, zero, suc, ◌+◌, ◌≡◌, refl, ◌≢◌, sym, arith, Bool, true, false, ◌==◌, ◌&&◌, ◌∷◌, Bool-cases,
  inl, inr, ap, ◌∙◌,
}
use secure_deletion.Lifecycle.{
  Family, Resource, member, kind, cpu_of, same, Ledger, release, Progress, push, Step, next, goto,
  ◌>>=◌, acquire, acquire_members, free_down, free_up,
}

-- The members of a family of the CPUs below `n` on top of a ledger.
abbrev pub members : Family → (n : ℕ) → Ledger → Ledger
members f zero s = s
members f (suc n) s = member f n ∷ members f n s

-- Those of the CPUs from `i`.
abbrev members_from : Family → (i n : ℕ) → Ledger → Ledger
members_from f i zero s = s
members_from f i (suc n) s = member f (n + i) ∷ members_from f i n s

pub ==_refl : (n : ℕ) → (n == n) ≡ true
==_refl n = ground arith

==_ne : (n m : ℕ) → n ≢ m → (n == m) ≡ false
==_ne n m ne = ground arith

and_false : (b : Bool) → (b && false) ≡ false
and_false true = refl
and_false false = refl

pub release-top : (r : Resource) (l : Ledger) → release r (r ∷ l) ≡ l
release-top r l = rw (==_refl (kind r), ==_refl (cpu_of r)) refl

pub release-other :
    (r s : Resource) (l : Ledger) → same r s ≡ false → release r (s ∷ l) ≡ s ∷ release r l
release-other r s l e = rw e refl

pub free_down-members : (f : Family) (n : ℕ) (s : Ledger) → free_down f n (members f n s) ≡ s
free_down-members f zero s = refl
free_down-members f (suc n) s =
    ap (free_down f n) (release-top (member f n) (members f n s)) ∙ free_down-members f n s

pub same-kind_ne : (r s : Resource) → kind r ≢ kind s → same r s ≡ false
same-kind_ne r s ne = rw (==_ne (kind r) (kind s) ne) refl

-- A resource of another kind is released from below a family.
pub release-members :
    (r : Resource) (f : Family) (n : ℕ) (s : Ledger)
    → kind r ≢ kind (member f 0)
    → release r (members f n s) ≡ members f n (release r s)
release-members r f zero s ne = refl
release-members r f (suc n) s ne =
    release-other r (member f n) (members f n s) (same-kind_ne r (member f n) ne)
    ∙ ap (λ l. member f n ∷ l) (release-members r f n s ne)

pub same-cpu_ne : (f : Family) (i j : ℕ) → i ≢ j → same (member f i) (member f j) ≡ false
same-cpu_ne f i j ne = rw (==_ne i j ne, and_false) refl

release-first :
    (f : Family) (i n : ℕ) (s : Ledger)
    → release (member f i) (members_from f i (suc n) s) ≡ members_from f (suc i) n s
release-first f i zero s = let e : 0 + i ≡ i = omega arith in rw e (release-top (member f i) s)
release-first f i (suc n) s =
    let e : suc n + i ≡ n + suc i = omega arith in
    let ne : i ≢ n + suc i = omega arith in
    rw e (
      release-other (member f i) (member f (n + suc i)) (members_from f i (suc n) s)
        (same-cpu_ne f i (n + suc i) ne)
      ∙ ap (λ l. member f (n + suc i) ∷ l) (release-first f i n s))

members_from-members : (f : Family) (n : ℕ) (s : Ledger) → members_from f 0 n s ≡ members f n s
members_from-members f zero s = refl
members_from-members f (suc n) s =
    let e : n + 0 ≡ n = omega arith in rw e (ap (λ l. member f n ∷ l) (members_from-members f n s))

free_up-members_from :
    (f : Family) (n i : ℕ) (s : Ledger) → free_up f n i (members_from f i n s) ≡ s
free_up-members_from f zero i s = refl
free_up-members_from f (suc n) i s =
    ap (free_up f n (suc i)) (release-first f i n s) ∙ free_up-members_from f n (suc i) s

pub free_up-members : (f : Family) (n : ℕ) (s : Ledger) → free_up f n 0 (members f n s) ≡ s
free_up-members f n s =
    ap (free_up f n 0) (sym (members_from-members f n s)) ∙ free_up-members_from f n 0 s

-- A family is released from below another.
pub free_up-other :
    (f g : Family) (n i m : ℕ) (s : Ledger)
    → kind (member f 0) ≢ kind (member g 0)
    → free_up f n i (members g m s) ≡ members g m (free_up f n i s)
free_up-other f g zero i m s ne = refl
free_up-other f g (suc n) i m s ne =
    ap (free_up f n (suc i)) (release-members (member f i) g m s ne)
    ∙ free_up-other f g n (suc i) m (release (member f i) s) ne

-- What a family leaves above it is not touched.
pub free_down-over :
    (r : Resource) (f : Family) (n : ℕ) (s : Ledger)
    → kind (member f 0) ≢ kind r
    → free_down f n (r ∷ s) ≡ r ∷ free_down f n s
free_down-over r f zero s ne = refl
free_down-over r f (suc n) s ne =
    ap (free_down f n) (release-other (member f n) r s (same-kind_ne (member f n) r ne))
    ∙ free_down-over r f n (release (member f n) s) ne

pub free_up-over :
    (r : Resource) (f : Family) (n i : ℕ) (s : Ledger)
    → kind (member f 0) ≢ kind r
    → free_up f n i (r ∷ s) ≡ r ∷ free_up f n i s
free_up-over r f zero i s ne = refl
free_up-over r f (suc n) i s ne =
    ap (free_up f n (suc i)) (release-other (member f i) r s (same-kind_ne (member f i) r ne))
    ∙ free_up-over r f n (suc i) (release (member f i) s) ne

-- The state of a constructor: whether the PPRF key is set, and the ledger.
abbrev pub Holds : Bool → Ledger → Progress → Type 0
Holds b s d = (d.pprf_key_set ≡ b) × (d.live ≡ s)

module _ {L : Type 0} (Undone : L → Ledger → Type 0) where
  -- Where a step ends: in such a state, or at a label with a ledger that `Undone` admits there.
  abbrev pub Ends : (Progress → Type 0) → Step L → Type 0
  Ends After (next d) = After d
  Ends After (goto label d) = Undone label d.live

  pub Ends-bind :
      (P Q : Progress → Type 0) (m : Step L) (f : Progress → Step L)
      → Ends P m
      → ((d : Progress) → P d → Ends Q (f d))
      → Ends Q (m >>= f)
  Ends-bind P Q (next d) f h k = k d h
  Ends-bind P Q (goto label d) f h k = h

  module _ (works : Resource → Bool) (b : Bool) where
    pub Ends-acquire :
        (s : Ledger) (r : Resource) (label : L) (d : Progress)
        → Undone label s
        → Holds b s d
        → Ends (Holds b (r ∷ s)) (acquire works r label d)
    Ends-acquire s r label d h (key, e) = elim (Bool-cases (works r)) [
      | inl w ↦ rw w (key, ap (λ l. r ∷ l) e)
      | inr w ↦ rw w (subst (Undone label) (sym e) h)
    ]

    -- An allocation in a chain.
    pub Ends-then :
        (s : Ledger) (r : Resource) (label : L) (m : Step L)
        → Undone label s
        → Ends (Holds b s) m
        → Ends (Holds b (r ∷ s)) (m >>= acquire works r label)
    Ends-then s r label m h e =
        Ends-bind (Holds b s) (Holds b (r ∷ s)) m (acquire works r label) e
          (λ d. Ends-acquire s r label d h)

    pub Ends-members :
        (s : Ledger) (f : Family) (n i k : ℕ) (label : ℕ → L) (d : Progress)
        → k ≡ n + i
        → ((j : ℕ) → Undone (label j) (members f j s))
        → Holds b (members f i s) d
        → Ends (Holds b (members f k s)) (acquire_members works f n i label d)
    Ends-members s f zero i k label d sum h (key, e) =
        let same : i ≡ k = omega arith in (key, e ∙ ap (λ j. members f j s) same)
    Ends-members s f (suc n) i k label d sum h (key, e) = elim (Bool-cases (works (member f i))) [
      | inl w ↦ rw w (
          Ends-members s f n (suc i) k label (push (member f i) d) (omega arith) h
            (key, ap (λ l. member f i ∷ l) e))
      | inr w ↦ rw w (subst (Undone (label i)) (sym e) (h i))
    ]
