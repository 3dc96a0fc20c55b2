-- ===== src/Limits/Windows.antt =====
-- Refreshing the windows of src/limits.rs.
use rust_llm_inference_gatew.Prelude.{ℕ, ◌≡◌, arith}
use rust_llm_inference_gatew.Limits.Snapshot.{KeyUsage, current_minute_start, current_day_start}
use rust_llm_inference_gatew.Limits.{refresh_windows}

-- `usage` belongs to the minute and the day of `now`.
pub record IsCurrent (now : ℕ) (usage : KeyUsage) : Type 0 where
  pub minute : usage.minute_started_at ≡ current_minute_start now
  pub day : usage.day_started_at ≡ current_day_start now

-- A refreshed entry is current.
pub refresh_windows-IsCurrent : (now : ℕ) (u : KeyUsage) → IsCurrent now (refresh_windows now u)
unfolding refresh_windows
refresh_windows-IsCurrent now u = ground arith

-- A current entry is left alone.
pub refresh_windows_of_current :
    (now : ℕ) (u : KeyUsage) → IsCurrent now u → refresh_windows now u ≡ u
unfolding refresh_windows
refresh_windows_of_current now u c = ground arith
