-- ===== src/MasterKey/System.antt =====
-- The constructor of a device and the rotations of its master key, with the helper, as one system: the
-- kernel's thread, the messages on their way in order, and the NVRAM. Each step is one routine of
-- either side. A message that the kernel cannot send is sent again later, and the helper exits when its
-- NVRAM fails. What the helper sends arrives.
use secure_deletion.Common.{ℕ, Bool, true, false, ◌≡◌, Option, none, some, List, [], ◌∷◌, ◌++◌}
use secure_deletion.MasterKey.{
  Device, Message, get_master_key, set_master_key, netlink_recv, begin_set, end_set, answer,
  goes_on,
}

-- Where the kernel's thread is: before the request of the constructor, sending it, waiting for the key,
-- between requests, or sending and waiting in `holepunch_tpm_set_master`.
pub data Phase : Type 0 where
  opening asking getting idle sending setting : Phase

pub record System : Type 0 where
  pub dev : Device
  pub phase : Phase
  pub requests : List Message
  pub replies : List Message
  pub nvram : ℕ
  pub helper : Bool

abbrev pub put_reply : List Message → Option Message → List Message
put_reply l none = l
put_reply l (some m) = l ++ (m ∷ [])

abbrev pub first_of : Device → List Device → Device
first_of d [] = d
first_of d (e ∷ es) = e

module _ (encrypt decrypt : (sec_key key : ℕ) → ℕ) where
  -- `eraser_ctr` begins to request the master key: all flags but one are cleared; and its message.
  abbrev pub begin_get : System → System
  begin_get s = record s {
    dev = record (s.dev) {
      got_key = false;
      get_requested = true;
      set_requested = false;
      ready_to_refresh = false;
    };
    phase = asking;
  }

  abbrev pub post_get : System → System
  post_get s = record s {
    phase = getting;
    requests = s.requests ++ (get_master_key encrypt decrypt s.dev ∷ []);
  }

  abbrev pub opened : System → System
  opened s = record s { phase = idle }

  -- `holepunch_tpm_set_master`: up to its message, the message, and behind the wait.
  abbrev pub request_set : (new_key : ℕ) → System → System
  request_set new_key s = record s {
    dev = begin_set encrypt decrypt new_key s.dev;
    phase = sending;
  }

  abbrev pub post_set : System → System
  post_set s = record s {
    phase = setting;
    requests = s.requests ++ (set_master_key encrypt decrypt s.dev ∷ []);
  }

  abbrev pub finish_set : System → System
  finish_set s = record s { dev = end_set encrypt decrypt s.dev; phase = idle }

  -- The helper takes a request and goes on or exits, and the kernel takes a reply.
  abbrev pub serve : (nvram_ok : Bool) → Message → List Message → System → System
  serve nvram_ok m rest s =
      let (nvram, reply) = answer m.nlmsg_type nvram_ok s.nvram m in
      record s {
        requests = rest;
        replies = put_reply s.replies reply;
        nvram = nvram;
        helper = goes_on m.nlmsg_type nvram_ok;
      }

  abbrev pub receive : Message → List Message → System → System
  receive m rest s = record s {
    dev = first_of s.dev (netlink_recv encrypt decrypt m (s.dev ∷ []));
    replies = rest;
  }

  -- A step of the system. A message can be sent to the helper while it runs; sending it can also fail,
  -- and is then tried again.
  pub data Step : System → System → Type 0 where
    get_begun : (s : System) → s.phase ≡ opening → Step s (begin_get s)
    get_unsent : (s : System) → s.phase ≡ asking → Step s s
    get_posted : (s : System) → s.phase ≡ asking → s.helper ≡ true → Step s (post_get s)
    key_taken : (s : System) → s.phase ≡ getting → s.dev.got_key ≡ true → Step s (opened s)
    set_begun : (new_key : ℕ) (s : System) → s.phase ≡ idle → Step s (request_set new_key s)
    set_unsent : (s : System) → s.phase ≡ sending → Step s s
    set_posted : (s : System) → s.phase ≡ sending → s.helper ≡ true → Step s (post_set s)
    set_finished :
        (s : System) → s.phase ≡ setting → s.dev.ready_to_refresh ≡ true → Step s (finish_set s)
    served :
        (nvram_ok : Bool) (m : Message) (l : List Message) (s : System)
        → s.helper ≡ true
        → s.requests ≡ m ∷ l
        → Step s (serve nvram_ok m l s)
    received :
        (m : Message) (l : List Message) (s : System) → s.replies ≡ m ∷ l → Step s (receive m l s)

  -- What any number of steps reach.
  pub data Reach : System → System → Type 0 where
    here : (s : System) → Reach s s
    later : (s t u : System) → Reach s t → Step t u → Reach s u

-- A device before its constructor asks for the key: its flags are clear.
abbrev pub start : (eraser_name sec_key nvram : ℕ) → System
start eraser_name sec_key nvram = record {
  dev = record {
    eraser_name = eraser_name;
    sec_key = sec_key;
    master_key = 0;
    new_master_key = 0;
    got_key = false;
    get_requested = false;
    set_requested = false;
    ready_to_refresh = false;
  };
  phase = opening;
  requests = [];
  replies = [];
  nvram = nvram;
  helper = true;
}
