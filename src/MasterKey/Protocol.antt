-- ===== src/MasterKey/Protocol.antt =====
-- What the messages achieve: the NVRAM has a key that the kernel knows, and a wait is in vain only when
-- the helper has exited.
use mathlib.Core.Path.{subst}
use secure_deletion.Common.{ℕ, zero, suc, true, false, ◌≡◌, refl, sym, ◌⊎◌, inl, inr}
use secure_deletion.MasterKey.System.{
  idle, getting, setting, System, Step, key_taken, set_finished, served, received, Reach, start,
}
use secure_deletion.MasterKey.Config.{
  Config, key_wanted, key_asked, key_sent, key_lost, key_replied, key_come, at_rest, set_asked,
  set_sent, set_lost, set_replied, set_acked, state, Follows,
}
use secure_deletion.MasterKey.Steps.{Step-Follows, Reach-IsConfig}

module _ (encrypt decrypt : (sec_key key : ℕ) → ℕ) where
  -- Within `n` steps, whichever they are, the system is in a state of `P`, and until then it has a
  -- step.
  abbrev pub Leads : (n : ℕ) → (System → Type 0) → System → Type 0
  Leads zero P s = P s
  Leads (suc n) P s =
      P s
      ⊎ (((t : System) × Step encrypt decrypt s t)
          × ((t : System) → Step encrypt decrypt s t → Leads n P t))

  -- The request of a new key is over: both sides have it.
  abbrev pub IsRenewed : (sec_key new_key : ℕ) → System → Type 0
  IsRenewed sec_key new_key s =
      (s.phase ≡ idle) × (s.dev.master_key ≡ new_key) × (s.nvram ≡ encrypt sec_key new_key)

  -- The constructor has the key of the NVRAM.
  abbrev pub IsOpen : (sec_key nvram : ℕ) → System → Type 0
  IsOpen sec_key nvram s =
      (s.phase ≡ idle) × (s.dev.master_key ≡ decrypt sec_key nvram) × (s.nvram ≡ nvram)

  -- The helper has exited, and there is no step any more.
  abbrev pub IsLost : System → Type 0
  IsLost s = (s.helper ≡ false) × ((t : System) → Step encrypt decrypt s t → ⊥)

  module _ (eraser_name sec_key : ℕ) (law : (k : ℕ) → decrypt sec_key (encrypt sec_key k) ≡ k) where
    abbrev at : Config → System
    at = state encrypt decrypt eraser_name sec_key

    abbrev Known : System → Type 0
    Known s =
        (decrypt sec_key s.nvram ≡ s.dev.master_key)
        ⊎ (decrypt sec_key s.nvram ≡ s.dev.new_master_key)

    Config-Known : (c : Config) → (at c).dev.got_key ≡ true → Known (at c)
    Config-Known (key_wanted m k v) got = cc
    Config-Known (key_asked m k v) got = cc
    Config-Known (key_sent m k v) got = cc
    Config-Known (key_lost m k v) got = cc
    Config-Known (key_replied m k v) got = cc
    Config-Known (key_come m k v) got = inl refl
    Config-Known (at_rest k v) got = inl refl
    Config-Known (set_asked k v) got = inl refl
    Config-Known (set_sent k v) got = inl refl
    Config-Known (set_lost k v) got = inl refl
    Config-Known (set_replied m k) got = inr (law k)
    Config-Known (set_acked m k) got = inr (law k)

    follows :
        (c : Config) (u : System)
        → Step encrypt decrypt (at c) u
        → Follows encrypt decrypt eraser_name sec_key c u
    follows = Step-Follows encrypt decrypt eraser_name sec_key law

    -- A state that waits leads where its only successor does.
    Leads-on :
        (n : ℕ) (P : System → Type 0) (c d : Config) (t : System)
        → Step encrypt decrypt (at c) t
        → ((u : System) → Step encrypt decrypt (at c) u → u ≡ at d)
        → Leads n P (at d)
        → Leads (suc n) P (at c)
    Leads-on n P c d t step only h = inr ((t, step), λ u st. subst (Leads n P) (sym (only u st)) h)

    -- A state with a request leads where its answer does, or to one in which the helper has exited.
    Leads-served :
        (n : ℕ) (P : System → Type 0) (c d e : Config) (t : System)
        → Step encrypt decrypt (at c) t
        → ((u : System) → Step encrypt decrypt (at c) u → (u ≡ at d) ⊎ (u ≡ at e))
        → Leads n P (at d)
        → Leads n P (at e)
        → Leads (suc n) P (at c)
    Leads-served n P c d e t step only h k = inr (
      (t, step),
      λ u st. elim (only u st) [
        | inl q ↦ subst (Leads n P) (sym q) h
        | inr q ↦ subst (Leads n P) (sym q) k
      ],
    )

    abbrev Renewed : (k : ℕ) → System → Type 0
    Renewed k s = IsRenewed sec_key k s ⊎ IsLost s

    abbrev Open : (v : ℕ) → System → Type 0
    Open v s = IsOpen sec_key v s ⊎ IsLost s

    set_lost-IsLost : (k v : ℕ) → IsLost (at (set_lost k v))
    set_lost-IsLost k v = (refl, follows (set_lost k v))

    key_lost-IsLost : (m k v : ℕ) → IsLost (at (key_lost m k v))
    key_lost-IsLost m k v = (refl, follows (key_lost m k v))

    Leads-set_acked : (m k : ℕ) → Leads 1 (Renewed k) (at (set_acked m k))
    Leads-set_acked m k =
        Leads-on 0 (Renewed k) (set_acked m k) (at_rest k (encrypt sec_key k)) _
          (set_finished (at (set_acked m k)) refl refl) (follows (set_acked m k))
          (inl (refl, law k, refl))

    Leads-set_replied : (m k : ℕ) → Leads 2 (Renewed k) (at (set_replied m k))
    Leads-set_replied m k =
        Leads-on 1 (Renewed k) (set_replied m k) (set_acked m k) _
          (received _ _ (at (set_replied m k)) refl) (follows (set_replied m k))
          (Leads-set_acked m k)

    Leads-set_sent : (k v : ℕ) → Leads 3 (Renewed k) (at (set_sent k v))
    Leads-set_sent k v =
        Leads-served 2 (Renewed k) (set_sent k v) (set_replied (decrypt sec_key v) k) (set_lost k v)
          _ (served true _ _ (at (set_sent k v)) refl refl) (follows (set_sent k v))
          (Leads-set_replied (decrypt sec_key v) k) (inl (inr (set_lost-IsLost k v)))

    Leads-key_come : (m k v : ℕ) → Leads 1 (Open v) (at (key_come m k v))
    Leads-key_come m k v =
        Leads-on 0 (Open v) (key_come m k v) (at_rest k v) _
          (key_taken (at (key_come m k v)) refl refl) (follows (key_come m k v))
          (inl (refl, refl, refl))

    Leads-key_replied : (m k v : ℕ) → Leads 2 (Open v) (at (key_replied m k v))
    Leads-key_replied m k v =
        Leads-on 1 (Open v) (key_replied m k v) (key_come m k v) _
          (received _ _ (at (key_replied m k v)) refl) (follows (key_replied m k v))
          (Leads-key_come m k v)

    Leads-key_sent : (m k v : ℕ) → Leads 3 (Open v) (at (key_sent m k v))
    Leads-key_sent m k v =
        Leads-served 2 (Open v) (key_sent m k v) (key_replied m k v) (key_lost m k v) _
          (served true _ _ (at (key_sent m k v)) refl refl) (follows (key_sent m k v))
          (Leads-key_replied m k v) (inl (inr (key_lost-IsLost m k v)))

    Leads-more : (n : ℕ) (P : System → Type 0) (s : System) → Leads n P s → Leads (suc n) P s
    Leads-more zero P s h = inl h
    Leads-more (suc n) P s (inl h) = inl h
    Leads-more (suc n) P s (inr (step, h)) = inr (step, λ t st. Leads-more n P t (h t st))

    Config-set :
        (c : Config) → (at c).phase ≡ setting → Leads 3 (Renewed (at c).dev.new_master_key) (at c)
    Config-set (set_sent k v) e = Leads-set_sent k v
    Config-set (set_lost k v) e = inl (inr (set_lost-IsLost k v))
    Config-set (set_replied m k) e = Leads-more 2 _ _ (Leads-set_replied m k)
    Config-set (set_acked m k) e = Leads-more 2 _ _ (Leads-more 1 _ _ (Leads-set_acked m k))
    Config-set (key_wanted m k v) e = cc
    Config-set (key_asked m k v) e = cc
    Config-set (key_sent m k v) e = cc
    Config-set (key_lost m k v) e = cc
    Config-set (key_replied m k v) e = cc
    Config-set (key_come m k v) e = cc
    Config-set (at_rest k v) e = cc
    Config-set (set_asked k v) e = cc

    Config-get : (c : Config) → (at c).phase ≡ getting → Leads 3 (Open (at c).nvram) (at c)
    Config-get (key_sent m k v) e = Leads-key_sent m k v
    Config-get (key_lost m k v) e = inl (inr (key_lost-IsLost m k v))
    Config-get (key_replied m k v) e = Leads-more 2 _ _ (Leads-key_replied m k v)
    Config-get (key_come m k v) e = Leads-more 2 _ _ (Leads-more 1 _ _ (Leads-key_come m k v))
    Config-get (set_asked k v) e = cc
    Config-get (set_sent k v) e = cc
    Config-get (set_lost k v) e = cc
    Config-get (set_replied m k) e = cc
    Config-get (set_acked m k) e = cc
    Config-get (key_wanted m k v) e = cc
    Config-get (key_asked m k v) e = cc
    Config-get (at_rest k v) e = cc

-- In every state that is reached from a device before its constructor has asked for the key, once it has
-- got the key, and also when the helper has exited, what the NVRAM holds decrypts to the master key in
-- memory or to the new one that it is being replaced by. The cipher must decrypt what it encrypted under
-- the sector key. Nothing is said of the key that the disk is under.
pub Reach-known :
    (encrypt decrypt : (sec_key key : ℕ) → ℕ) (eraser_name sec_key nvram : ℕ) (s : System)
    → ((k : ℕ) → decrypt sec_key (encrypt sec_key k) ≡ k)
    → Reach encrypt decrypt (start eraser_name sec_key nvram) s
    → s.dev.got_key ≡ true
    → (decrypt sec_key s.nvram ≡ s.dev.master_key)
      ⊎ (decrypt sec_key s.nvram ≡ s.dev.new_master_key)
Reach-known encrypt decrypt eraser_name sec_key nvram s law reach =
    let (c, e) = Reach-IsConfig encrypt decrypt eraser_name sec_key law nvram s reach in
    subst
      (λ x.
        x.dev.got_key ≡ true
        → (decrypt sec_key x.nvram ≡ x.dev.master_key)
          ⊎ (decrypt sec_key x.nvram ≡ x.dev.new_master_key))
      (sym e) (Config-Known encrypt decrypt eraser_name sec_key law c)

-- In every reachable state in which `holepunch_tpm_set_master` waits, within three steps, whichever they
-- are, with a step at each until then, one of two things is so: the wait is over, and the new key is both
-- the master key in memory and, encrypted, what the NVRAM holds; or the helper, whose NVRAM has failed,
-- has exited, and the wait has no end, since there is no step any more. The cipher decrypts what it
-- encrypted under the sector key, and what the helper sends arrives.
pub set-Leads :
    (encrypt decrypt : (sec_key key : ℕ) → ℕ) (eraser_name sec_key nvram : ℕ) (s : System)
    → ((k : ℕ) → decrypt sec_key (encrypt sec_key k) ≡ k)
    → Reach encrypt decrypt (start eraser_name sec_key nvram) s
    → s.phase ≡ setting
    → Leads encrypt decrypt 3
        (λ u. IsRenewed encrypt decrypt sec_key s.dev.new_master_key u ⊎ IsLost encrypt decrypt u)
        s
set-Leads encrypt decrypt eraser_name sec_key nvram s law reach =
    let (c, e) = Reach-IsConfig encrypt decrypt eraser_name sec_key law nvram s reach in
    subst
      (λ x.
        x.phase ≡ setting
        → Leads encrypt decrypt 3
            (λ u.
              IsRenewed encrypt decrypt sec_key x.dev.new_master_key u ⊎ IsLost encrypt decrypt u)
            x)
      (sym e) (Config-set encrypt decrypt eraser_name sec_key law c)

-- In every reachable state in which the constructor waits for the master key, within three steps,
-- whichever they are, with a step at each until then, one of two things is so: it has the key that the
-- NVRAM held, decrypted; or the helper, whose NVRAM has failed, has exited, and the wait has no end, since
-- there is no step any more. The cipher decrypts what it encrypted under the sector key, and what the
-- helper sends arrives.
pub get-Leads :
    (encrypt decrypt : (sec_key key : ℕ) → ℕ) (eraser_name sec_key nvram : ℕ) (s : System)
    → ((k : ℕ) → decrypt sec_key (encrypt sec_key k) ≡ k)
    → Reach encrypt decrypt (start eraser_name sec_key nvram) s
    → s.phase ≡ getting
    → Leads encrypt decrypt 3
        (λ u. IsOpen encrypt decrypt sec_key s.nvram u ⊎ IsLost encrypt decrypt u)
        s
get-Leads encrypt decrypt eraser_name sec_key nvram s law reach =
    let (c, e) = Reach-IsConfig encrypt decrypt eraser_name sec_key law nvram s reach in
    subst
      (λ x.
        x.phase ≡ getting
        → Leads encrypt decrypt 3
            (λ u. IsOpen encrypt decrypt sec_key x.nvram u ⊎ IsLost encrypt decrypt u) x)
      (sym e) (Config-get encrypt decrypt eraser_name sec_key law c)
