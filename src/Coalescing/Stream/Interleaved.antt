-- ===== src/Coalescing/Stream/Interleaved.antt =====
-- The callers and the leaders of src/coalescing.rs and of `stream_completion` in src/handlers.rs,
-- interleaved in any order between the locks.
mod Delivery
mod Locks
mod Logs
mod Soundness
pub mod Promises
mod Leaderless
pub mod Fixture
mod Tests
use rust_llm_inference_gatew.Prelude.{
  update, ℕ, suc, Bool, true, false, Option, none, some, List, [], ◌∷◌, ◌++◌, ◌≡◌, ◌<◌,
  if◌then◌else◌,
}
use rust_llm_inference_gatew.Text.{Text}
use rust_llm_inference_gatew.HashMap.{empty}
use rust_llm_inference_gatew.Coalescing.Stream.{StreamItem, Channels, new_entry, hang_up}
use rust_llm_inference_gatew.Coalescing.Stream.Shared.{
  Shared, look_up, attach, find_entry, push_item, remove_entry,
}

-- Where the leader of an entry is: in its own `join_or_create_stream`, between two calls of
-- `publish_stream_item`, in one of them before or after the lock of the entry, or past its loop.
pub data Phase : Type 0 where
  joining : Phase
  waiting : Phase
  found : StreamItem → ℕ → Phase
  removing : Phase
  stopped : Phase

-- The leader of each entry, its key and what it has published, and the entry that each channel's
-- caller had found.
pub record System : Type 0 where
  pub shared : Shared
  pub phase : ℕ → Phase
  pub key : ℕ → Text
  pub published : ℕ → List StreamItem
  pub source : ℕ → ℕ

abbrev pub initial : System
initial = record {
  shared = record {
    stream_inflight = empty;
    next_entry = 0;
    entry = λ id. new_entry;
    channels = record { next = 0; sent = λ rx. []; alive = λ rx. false };
  };
  phase = λ id. stopped;
  key = λ id. [];
  published = λ id. [];
  source = λ rx. 0;
}

-- A caller looks its key up; if it makes an entry, it is the entry's leader.
pub calls : System → Text → System
calls s k =
    let (shared, id, is_leader) = look_up s.shared k in
    if is_leader
    then record s {
      shared = shared;
      phase = update s.phase id joining;
      key = update s.key id k;
      published = update s.published id [];
    }
    else record s { shared = shared }

-- A caller that holds an entry subscribes to it.
pub subscribes : System → ℕ → System
subscribes s id =
    let (shared, rx) = attach s.shared id in
    record s { shared = shared; source = update s.source rx id }

-- The leader of `id` is between two calls of `publish_stream_item`.
pub waits : System → ℕ → System
waits s id = record s { phase = update s.phase id waiting }

-- It calls `publish_stream_item`, which returns at once if the key is not in the map.
looked : System → ℕ → StreamItem → Option ℕ → System
looked s id item none = record s { published = update s.published id (s.published id ++ item ∷ []) }
looked s id item (some held) = record s { phase = update s.phase id (found item held) }

pub finds : System → ℕ → StreamItem → System
unfolding looked
finds s id item = looked s id item (find_entry s.shared (s.key id))

-- It publishes on the entry `held` that it has found.
pub pushes : System → ℕ → StreamItem → ℕ → System
pushes s id item held =
    let (shared, should_remove) = push_item s.shared held item in
    record s {
      shared = shared;
      published = update s.published id (s.published id ++ item ∷ []);
      phase = update s.phase id (if should_remove then removing else waiting);
    }

pub removes : System → ℕ → System
removes s id = record s {
  shared = remove_entry s.shared (s.key id);
  phase = update s.phase id stopped;
}

pub goes_away : System → ℕ → System
goes_away s rx = record s { shared = record s.shared { channels = hang_up rx s.shared.channels } }

-- Only an entry's leader publishes on it, one call after the other, until a terminal item; a caller
-- subscribes at any time after it has found the entry.
pub data Step (s : System) : System → Type 0 where
  call : (k : Text) → Step s (calls s k)
  follow : (id : ℕ) → id < s.shared.next_entry → Step s (subscribes s id)
  lead :
      (id : ℕ)
      → id < s.shared.next_entry
      → s.phase id ≡ joining
      → Step s (waits (subscribes s id) id)
  find :
      (id : ℕ) (item : StreamItem)
      → id < s.shared.next_entry
      → s.phase id ≡ waiting
      → Step s (finds s id item)
  push :
      (id : ℕ) (item : StreamItem) (held : ℕ)
      → id < s.shared.next_entry
      → s.phase id ≡ found item held
      → Step s (pushes s id item held)
  clear : (id : ℕ) → id < s.shared.next_entry → s.phase id ≡ removing → Step s (removes s id)
  hangs_up : (rx : ℕ) → Step s (goes_away s rx)

pub data Reach (s : System) : System → Type 0 where
  start : Reach s s
  later : {t u : System} → Reach s t → Step t u → Reach s u
