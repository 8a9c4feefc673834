-- ===== src/MasterKey/Config.antt =====
-- The states that the system reaches: twelve, in two of which the helper has exited.
use mathlib.Core.Path.{subst}
use secure_deletion.Common.{ℕ, Bool, true, false, ◌≡◌, ◌⊎◌, refl, arith, List, [], ◌∷◌, ◌==◌}
use secure_deletion.MasterKey.{
  Device, Message, msg_get_key, msg_set_key, msg_payload, recv_found, recv_list, netlink_recv,
  end_set,
}
use secure_deletion.MasterKey.System.{
  opening, asking, getting, idle, sending, setting, System, finish_set, receive,
}

abbrev head_of : Message → List Message → Message
head_of n [] = n
head_of n (m ∷ l) = m

abbrev tail_of : List Message → List Message
tail_of [] = []
tail_of (m ∷ l) = l

-- The message at the head of a list of one.
pub only_message :
    (P : Message → List Message → Type 0) (n m : Message) (l : List Message)
    → (n ∷ []) ≡ (m ∷ l)
    → P n []
    → P m l
only_message P n m l e h = subst (λ x. P (head_of n x) (tail_of x)) e h

-- The states, with the parts that differ: a master key `m`, a new one `k`, and the NVRAM `v`.
pub data Config : Type 0 where
  key_wanted key_asked key_sent key_lost : (m k v : ℕ) → Config
  key_replied key_come : (m k v : ℕ) → Config
  at_rest : (k v : ℕ) → Config
  set_asked set_sent set_lost : (k v : ℕ) → Config
  set_replied set_acked : (m k : ℕ) → Config

module _ (encrypt decrypt : (sec_key key : ℕ) → ℕ) (eraser_name sec_key : ℕ) where
  abbrev pub device : (m k : ℕ) → (got get set ready : Bool) → Device
  device m k got get set ready = record {
    eraser_name = eraser_name;
    sec_key = sec_key;
    master_key = m;
    new_master_key = k;
    got_key = got;
    get_requested = get;
    set_requested = set;
    ready_to_refresh = ready;
  }

  abbrev pub get_message : (key : ℕ) → Message
  get_message key = record {
    nlmsg_type = msg_get_key;
    len = msg_payload;
    name = eraser_name;
    key = key;
  }

  abbrev pub set_message : (key : ℕ) → Message
  set_message key = record {
    nlmsg_type = msg_set_key;
    len = msg_payload;
    name = eraser_name;
    key = key;
  }

  abbrev pub state : Config → System
  state (key_wanted m k v) = record {
    dev = device m k false false false false;
    phase = opening;
    requests = [];
    replies = [];
    nvram = v;
    helper = true;
  }
  state (key_asked m k v) = record {
    dev = device m k false true false false;
    phase = asking;
    requests = [];
    replies = [];
    nvram = v;
    helper = true;
  }
  state (key_sent m k v) = record {
    dev = device m k false true false false;
    phase = getting;
    requests = get_message 0 ∷ [];
    replies = [];
    nvram = v;
    helper = true;
  }
  state (key_lost m k v) = record {
    dev = device m k false true false false;
    phase = getting;
    requests = [];
    replies = [];
    nvram = v;
    helper = false;
  }
  state (key_replied m k v) = record {
    dev = device m k false true false false;
    phase = getting;
    requests = [];
    replies = get_message v ∷ [];
    nvram = v;
    helper = true;
  }
  state (key_come m k v) = record {
    dev = device (decrypt sec_key v) k true false false false;
    phase = getting;
    requests = [];
    replies = [];
    nvram = v;
    helper = true;
  }
  state (at_rest k v) = record {
    dev = device (decrypt sec_key v) k true false false false;
    phase = idle;
    requests = [];
    replies = [];
    nvram = v;
    helper = true;
  }
  state (set_asked k v) = record {
    dev = device (decrypt sec_key v) k true false true false;
    phase = sending;
    requests = [];
    replies = [];
    nvram = v;
    helper = true;
  }
  state (set_sent k v) = record {
    dev = device (decrypt sec_key v) k true false true false;
    phase = setting;
    requests = set_message (encrypt sec_key k) ∷ [];
    replies = [];
    nvram = v;
    helper = true;
  }
  state (set_lost k v) = record {
    dev = device (decrypt sec_key v) k true false true false;
    phase = setting;
    requests = [];
    replies = [];
    nvram = v;
    helper = false;
  }
  state (set_replied m k) = record {
    dev = device m k true false true false;
    phase = setting;
    requests = [];
    replies = set_message 0 ∷ [];
    nvram = encrypt sec_key k;
    helper = true;
  }
  state (set_acked m k) = record {
    dev = device m k true false false true;
    phase = setting;
    requests = [];
    replies = [];
    nvram = encrypt sec_key k;
    helper = true;
  }

  -- Where a step from a state leads. A message is sent or tried again, and answered or lost.
  abbrev pub Follows : Config → System → Type 0
  Follows (key_wanted m k v) t = t ≡ state (key_asked m k v)
  Follows (key_asked m k v) t = (t ≡ state (key_asked m k v)) ⊎ (t ≡ state (key_sent m k v))
  Follows (key_sent m k v) t = (t ≡ state (key_replied m k v)) ⊎ (t ≡ state (key_lost m k v))
  Follows (key_lost m k v) t = ⊥
  Follows (key_replied m k v) t = t ≡ state (key_come m k v)
  Follows (key_come m k v) t = t ≡ state (at_rest k v)
  Follows (at_rest k v) t = (n : ℕ) × (t ≡ state (set_asked n v))
  Follows (set_asked k v) t = (t ≡ state (set_asked k v)) ⊎ (t ≡ state (set_sent k v))
  Follows (set_sent k v) t =
      (t ≡ state (set_replied (decrypt sec_key v) k)) ⊎ (t ≡ state (set_lost k v))
  Follows (set_lost k v) t = ⊥
  Follows (set_replied m k) t = t ≡ state (set_acked m k)
  Follows (set_acked m k) t = t ≡ state (at_rest k (encrypt sec_key k))

  -- Being one of them.
  abbrev pub IsConfig : System → Type 0
  IsConfig s = (c : Config) × (s ≡ state c)

  module _ (law : (k : ℕ) → decrypt sec_key (encrypt sec_key k) ≡ k) where
    names : (eraser_name == eraser_name) ≡ true
    names = ground arith

    pub receive_key :
        (m k v : ℕ)
        → receive encrypt decrypt (get_message v) [] (state (key_replied m k v))
          ≡ state (key_come m k v)
    unfolding netlink_recv recv_list recv_found
    receive_key m k v = rw names refl

    pub receive_ack :
        (m k : ℕ)
        → receive encrypt decrypt (set_message 0) [] (state (set_replied m k))
          ≡ state (set_acked m k)
    unfolding netlink_recv recv_list recv_found
    receive_ack m k = rw names refl

    pub finish :
        (m k : ℕ)
        → finish_set encrypt decrypt (state (set_acked m k)) ≡ state (at_rest k (encrypt sec_key k))
    unfolding end_set
    finish m k = rw (law k) refl
