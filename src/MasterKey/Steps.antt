-- ===== src/MasterKey/Steps.antt =====
-- The steps between the states of Config, and what they say of every reachable state.
use mathlib.Core.Path.{subst}
use secure_deletion.Common.{ℕ, true, false, ◌≡◌, refl, inl, inr}
use secure_deletion.MasterKey.{Message, begin_set, answer}
use secure_deletion.MasterKey.System.{
  System, Step, get_begun, get_unsent, get_posted, key_taken, set_begun, set_unsent, set_posted,
  set_finished, served, received, Reach, here, later, start, serve, receive,
}
use secure_deletion.MasterKey.Config.{
  Config, key_wanted, key_asked, key_sent, key_lost, key_replied, key_come, at_rest, set_asked,
  set_sent, set_lost, set_replied, set_acked, state, get_message, set_message, Follows, IsConfig,
  only_message, receive_key, receive_ack, finish,
}

module _ (encrypt decrypt : (sec_key key : ℕ) → ℕ) (eraser_name sec_key : ℕ)
    (law : (k : ℕ) → decrypt sec_key (encrypt sec_key k) ≡ k) where
  abbrev at : Config → System
  at = state encrypt decrypt eraser_name sec_key

  abbrev get : (key : ℕ) → Message
  get = get_message encrypt decrypt eraser_name sec_key

  abbrev put : (key : ℕ) → Message
  put = set_message encrypt decrypt eraser_name sec_key

  pub Step-Follows :
      (c : Config) (t : System)
      → Step encrypt decrypt (at c) t
      → Follows encrypt decrypt eraser_name sec_key c t
  unfolding begin_set answer
  Step-Follows (key_wanted m k v) _ (get_begun _ ph) = refl
  Step-Follows (key_wanted m k v) _ (get_unsent _ ph) = cc
  Step-Follows (key_wanted m k v) _ (get_posted _ ph up) = cc
  Step-Follows (key_wanted m k v) _ (key_taken _ ph got) = cc
  Step-Follows (key_wanted m k v) _ (set_begun n _ ph) = cc
  Step-Follows (key_wanted m k v) _ (set_unsent _ ph) = cc
  Step-Follows (key_wanted m k v) _ (set_posted _ ph up) = cc
  Step-Follows (key_wanted m k v) _ (set_finished _ ph ready) = cc
  Step-Follows (key_wanted m k v) _ (served w n l _ up e) = cc
  Step-Follows (key_wanted m k v) _ (received n l _ e) = cc
  Step-Follows (key_asked m k v) _ (get_begun _ ph) = cc
  Step-Follows (key_asked m k v) _ (get_unsent _ ph) = inl refl
  Step-Follows (key_asked m k v) _ (get_posted _ ph up) = inr refl
  Step-Follows (key_asked m k v) _ (key_taken _ ph got) = cc
  Step-Follows (key_asked m k v) _ (set_begun n _ ph) = cc
  Step-Follows (key_asked m k v) _ (set_unsent _ ph) = cc
  Step-Follows (key_asked m k v) _ (set_posted _ ph up) = cc
  Step-Follows (key_asked m k v) _ (set_finished _ ph ready) = cc
  Step-Follows (key_asked m k v) _ (served w n l _ up e) = cc
  Step-Follows (key_asked m k v) _ (received n l _ e) = cc
  Step-Follows (key_sent m k v) _ (get_begun _ ph) = cc
  Step-Follows (key_sent m k v) _ (get_unsent _ ph) = cc
  Step-Follows (key_sent m k v) _ (get_posted _ ph up) = cc
  Step-Follows (key_sent m k v) _ (key_taken _ ph got) = cc
  Step-Follows (key_sent m k v) _ (set_begun n _ ph) = cc
  Step-Follows (key_sent m k v) _ (set_unsent _ ph) = cc
  Step-Follows (key_sent m k v) _ (set_posted _ ph up) = cc
  Step-Follows (key_sent m k v) _ (set_finished _ ph ready) = cc
  Step-Follows (key_sent m k v) _ (served true n l _ up e) = inl (
      only_message
        (λ x r. serve encrypt decrypt true x r (at (key_sent m k v)) ≡ at (key_replied m k v))
        (get 0) n l e refl)
  Step-Follows (key_sent m k v) _ (served false n l _ up e) = inr (
      only_message
        (λ x r. serve encrypt decrypt false x r (at (key_sent m k v)) ≡ at (key_lost m k v)) (get 0)
        n l e refl)
  Step-Follows (key_sent m k v) _ (received n l _ e) = cc
  Step-Follows (key_lost m k v) _ (get_begun _ ph) = cc
  Step-Follows (key_lost m k v) _ (get_unsent _ ph) = cc
  Step-Follows (key_lost m k v) _ (get_posted _ ph up) = cc
  Step-Follows (key_lost m k v) _ (key_taken _ ph got) = cc
  Step-Follows (key_lost m k v) _ (set_begun n _ ph) = cc
  Step-Follows (key_lost m k v) _ (set_unsent _ ph) = cc
  Step-Follows (key_lost m k v) _ (set_posted _ ph up) = cc
  Step-Follows (key_lost m k v) _ (set_finished _ ph ready) = cc
  Step-Follows (key_lost m k v) _ (served w n l _ up e) = cc
  Step-Follows (key_lost m k v) _ (received n l _ e) = cc
  Step-Follows (key_replied m k v) _ (get_begun _ ph) = cc
  Step-Follows (key_replied m k v) _ (get_unsent _ ph) = cc
  Step-Follows (key_replied m k v) _ (get_posted _ ph up) = cc
  Step-Follows (key_replied m k v) _ (key_taken _ ph got) = cc
  Step-Follows (key_replied m k v) _ (set_begun n _ ph) = cc
  Step-Follows (key_replied m k v) _ (set_unsent _ ph) = cc
  Step-Follows (key_replied m k v) _ (set_posted _ ph up) = cc
  Step-Follows (key_replied m k v) _ (set_finished _ ph ready) = cc
  Step-Follows (key_replied m k v) _ (served w n l _ up e) = cc
  Step-Follows (key_replied m k v) _ (received n l _ e) =
      only_message
        (λ x r. receive encrypt decrypt x r (at (key_replied m k v)) ≡ at (key_come m k v)) (get v)
        n l e (receive_key encrypt decrypt eraser_name sec_key law m k v)
  Step-Follows (key_come m k v) _ (get_begun _ ph) = cc
  Step-Follows (key_come m k v) _ (get_unsent _ ph) = cc
  Step-Follows (key_come m k v) _ (get_posted _ ph up) = cc
  Step-Follows (key_come m k v) _ (key_taken _ ph got) = refl
  Step-Follows (key_come m k v) _ (set_begun n _ ph) = cc
  Step-Follows (key_come m k v) _ (set_unsent _ ph) = cc
  Step-Follows (key_come m k v) _ (set_posted _ ph up) = cc
  Step-Follows (key_come m k v) _ (set_finished _ ph ready) = cc
  Step-Follows (key_come m k v) _ (served w n l _ up e) = cc
  Step-Follows (key_come m k v) _ (received n l _ e) = cc
  Step-Follows (at_rest k v) _ (get_begun _ ph) = cc
  Step-Follows (at_rest k v) _ (get_unsent _ ph) = cc
  Step-Follows (at_rest k v) _ (get_posted _ ph up) = cc
  Step-Follows (at_rest k v) _ (key_taken _ ph got) = cc
  Step-Follows (at_rest k v) _ (set_begun n _ ph) = (n, refl)
  Step-Follows (at_rest k v) _ (set_unsent _ ph) = cc
  Step-Follows (at_rest k v) _ (set_posted _ ph up) = cc
  Step-Follows (at_rest k v) _ (set_finished _ ph ready) = cc
  Step-Follows (at_rest k v) _ (served w n l _ up e) = cc
  Step-Follows (at_rest k v) _ (received n l _ e) = cc
  Step-Follows (set_asked k v) _ (get_begun _ ph) = cc
  Step-Follows (set_asked k v) _ (get_unsent _ ph) = cc
  Step-Follows (set_asked k v) _ (get_posted _ ph up) = cc
  Step-Follows (set_asked k v) _ (key_taken _ ph got) = cc
  Step-Follows (set_asked k v) _ (set_begun n _ ph) = cc
  Step-Follows (set_asked k v) _ (set_unsent _ ph) = inl refl
  Step-Follows (set_asked k v) _ (set_posted _ ph up) = inr refl
  Step-Follows (set_asked k v) _ (set_finished _ ph ready) = cc
  Step-Follows (set_asked k v) _ (served w n l _ up e) = cc
  Step-Follows (set_asked k v) _ (received n l _ e) = cc
  Step-Follows (set_sent k v) _ (get_begun _ ph) = cc
  Step-Follows (set_sent k v) _ (get_unsent _ ph) = cc
  Step-Follows (set_sent k v) _ (get_posted _ ph up) = cc
  Step-Follows (set_sent k v) _ (key_taken _ ph got) = cc
  Step-Follows (set_sent k v) _ (set_begun n _ ph) = cc
  Step-Follows (set_sent k v) _ (set_unsent _ ph) = cc
  Step-Follows (set_sent k v) _ (set_posted _ ph up) = cc
  Step-Follows (set_sent k v) _ (set_finished _ ph ready) = cc
  Step-Follows (set_sent k v) _ (served true n l _ up e) = inl (
      only_message
        (λ x r.
          serve encrypt decrypt true x r (at (set_sent k v))
          ≡ at (set_replied (decrypt sec_key v) k))
        (put (encrypt sec_key k)) n l e refl)
  Step-Follows (set_sent k v) _ (served false n l _ up e) = inr (
      only_message (λ x r. serve encrypt decrypt false x r (at (set_sent k v)) ≡ at (set_lost k v))
        (put (encrypt sec_key k)) n l e refl)
  Step-Follows (set_sent k v) _ (received n l _ e) = cc
  Step-Follows (set_lost k v) _ (get_begun _ ph) = cc
  Step-Follows (set_lost k v) _ (get_unsent _ ph) = cc
  Step-Follows (set_lost k v) _ (get_posted _ ph up) = cc
  Step-Follows (set_lost k v) _ (key_taken _ ph got) = cc
  Step-Follows (set_lost k v) _ (set_begun n _ ph) = cc
  Step-Follows (set_lost k v) _ (set_unsent _ ph) = cc
  Step-Follows (set_lost k v) _ (set_posted _ ph up) = cc
  Step-Follows (set_lost k v) _ (set_finished _ ph ready) = cc
  Step-Follows (set_lost k v) _ (served w n l _ up e) = cc
  Step-Follows (set_lost k v) _ (received n l _ e) = cc
  Step-Follows (set_replied m k) _ (get_begun _ ph) = cc
  Step-Follows (set_replied m k) _ (get_unsent _ ph) = cc
  Step-Follows (set_replied m k) _ (get_posted _ ph up) = cc
  Step-Follows (set_replied m k) _ (key_taken _ ph got) = cc
  Step-Follows (set_replied m k) _ (set_begun n _ ph) = cc
  Step-Follows (set_replied m k) _ (set_unsent _ ph) = cc
  Step-Follows (set_replied m k) _ (set_posted _ ph up) = cc
  Step-Follows (set_replied m k) _ (set_finished _ ph ready) = cc
  Step-Follows (set_replied m k) _ (served w n l _ up e) = cc
  Step-Follows (set_replied m k) _ (received n l _ e) =
      only_message (λ x r. receive encrypt decrypt x r (at (set_replied m k)) ≡ at (set_acked m k))
        (put 0) n l e (receive_ack encrypt decrypt eraser_name sec_key law m k)
  Step-Follows (set_acked m k) _ (get_begun _ ph) = cc
  Step-Follows (set_acked m k) _ (get_unsent _ ph) = cc
  Step-Follows (set_acked m k) _ (get_posted _ ph up) = cc
  Step-Follows (set_acked m k) _ (key_taken _ ph got) = cc
  Step-Follows (set_acked m k) _ (set_begun n _ ph) = cc
  Step-Follows (set_acked m k) _ (set_unsent _ ph) = cc
  Step-Follows (set_acked m k) _ (set_posted _ ph up) = cc
  Step-Follows (set_acked m k) _ (set_finished _ ph ready) =
      finish encrypt decrypt eraser_name sec_key law m k
  Step-Follows (set_acked m k) _ (served w n l _ up e) = cc
  Step-Follows (set_acked m k) _ (received n l _ e) = cc

  Follows-IsConfig :
      (c : Config) (t : System)
      → Follows encrypt decrypt eraser_name sec_key c t
      → IsConfig encrypt decrypt eraser_name sec_key t
  Follows-IsConfig (key_wanted m k v) t e = (key_asked m k v, e)
  Follows-IsConfig (key_asked m k v) t (inl e) = (key_asked m k v, e)
  Follows-IsConfig (key_asked m k v) t (inr e) = (key_sent m k v, e)
  Follows-IsConfig (key_sent m k v) t (inl e) = (key_replied m k v, e)
  Follows-IsConfig (key_sent m k v) t (inr e) = (key_lost m k v, e)
  Follows-IsConfig (key_lost m k v) t e = absurd e
  Follows-IsConfig (key_replied m k v) t e = (key_come m k v, e)
  Follows-IsConfig (key_come m k v) t e = (at_rest k v, e)
  Follows-IsConfig (at_rest k v) t (n, e) = (set_asked n v, e)
  Follows-IsConfig (set_asked k v) t (inl e) = (set_asked k v, e)
  Follows-IsConfig (set_asked k v) t (inr e) = (set_sent k v, e)
  Follows-IsConfig (set_sent k v) t (inl e) = (set_replied (decrypt sec_key v) k, e)
  Follows-IsConfig (set_sent k v) t (inr e) = (set_lost k v, e)
  Follows-IsConfig (set_lost k v) t e = absurd e
  Follows-IsConfig (set_replied m k) t e = (set_acked m k, e)
  Follows-IsConfig (set_acked m k) t e = (at_rest k (encrypt sec_key k), e)

  pub Reach-IsConfig :
      (nvram : ℕ) (s : System)
      → Reach encrypt decrypt (start eraser_name sec_key nvram) s
      → IsConfig encrypt decrypt eraser_name sec_key s
  Reach-IsConfig nvram _ (here _) = (key_wanted 0 0 nvram, refl)
  Reach-IsConfig nvram _ (later _ t u r st) =
      let (c, e) = Reach-IsConfig nvram t r in
      Follows-IsConfig c u (Step-Follows c u (subst (λ x. Step encrypt decrypt x u) e st))
