-- ===== src/Coalescing/OneShot/Leaders.antt =====
-- Callers of the one-shot half of src/coalescing.rs, interleaved in any order.
pub mod Uniqueness
pub mod Abandoned
pub mod Answered
mod Tests
use rust_llm_inference_gatew.Prelude.{
  ℕ, Bool, true, false, ◌&&◌, ◌||◌, List, [], ◌∷◌, Result, ◌==◌, if◌then◌else◌,
}
use rust_llm_inference_gatew.Text.{Text, text_eq}
use rust_llm_inference_gatew.HashMap.{empty}
use rust_llm_inference_gatew.Backend.{BackendError}
use rust_llm_inference_gatew.Models.{BackendChatResponse}
use rust_llm_inference_gatew.Coalescing.OneShot.{
  InflightCoalescer, CoalesceOutcome, leader, joined, enter, complete,
}

-- The coalescer, and the callers that wait for the backend as leaders, each with its key.
pub record System : Type 0 where
  pub coalescer : InflightCoalescer
  pub leading : List (ℕ × Text)

abbrev pub idle : System
idle = record { coalescer = record { inflight = empty; sent = [] }; leading = [] }

-- A caller arrives with a key; the backend answers the leader of a key; or the future of a caller is
-- dropped, as the server does when its client goes away.
pub data Event : Type 0 where
  arrives : (caller : ℕ) (key : Text) → Event
  answers : (caller : ℕ) (key : Text) → Result BackendChatResponse BackendError → Event
  drops : (caller : ℕ) (key : Text) → Event

abbrev is_lead : ℕ → Text → ℕ × Text → Bool
is_lead caller key (l, k) = l == caller && text_eq k key

pub leads : ℕ → Text → List (ℕ × Text) → Bool
leads caller key [] = false
leads caller key (l ∷ ls) = is_lead caller key l || leads caller key ls

pub without : ℕ → Text → List (ℕ × Text) → List (ℕ × Text)
without caller key [] = []
without caller key (l ∷ ls) =
    let rest = without caller key ls in if is_lead caller key l then rest else l ∷ rest

lead_if : CoalesceOutcome → ℕ → Text → List (ℕ × Text) → List (ℕ × Text)
lead_if leader caller key leading = (caller, key) ∷ leading
lead_if joined caller key leading = leading

-- Dropping the future of a leader runs no code of the coalescer, and neither does that of a
-- follower: its receiver goes, and a send to it is ignored.
pub step : System → Event → System
unfolding lead_if without leads
step s (arrives caller key) = record {
  coalescer = (enter s.coalescer key caller).0;
  leading = lead_if (enter s.coalescer key caller).1 caller key s.leading;
}
step s (answers caller key result) =
    if leads caller key s.leading
    then record {
      coalescer = complete s.coalescer key result;
      leading = without caller key s.leading;
    }
    else s
step s (drops caller key) = record s { leading = without caller key s.leading }

pub run : System → List Event → System
unfolding step
run s [] = s
run s (e ∷ es) = run (step s e) es
