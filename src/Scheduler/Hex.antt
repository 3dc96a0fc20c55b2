-- ===== src/Scheduler/Hex.antt =====
-- `to_hex` of src/scheduler.rs loses nothing.
use rust_llm_inference_gatew.Prelude.{
  ℕ, ◌+◌, ◌-◌, ◌*◌, ◌/◌, ◌%◌, ◌<◌, ◌≡◌, refl, ap, sym, ◌∙◌, List, [], ◌∷◌, arith, leb,
  if◌then◌else◌, All,
}
use rust_llm_inference_gatew.Text.{Text}
use rust_llm_inference_gatew.Scheduler.{nibble_to_hex, to_hex}

abbrev pub IsByte : ℕ → Type 0
IsByte n = n < 256

digit_value : ℕ → ℕ
digit_value c = if leb c 57 then c - 48 else c - 87

from_hex : Text → List ℕ
from_hex [] = []
from_hex (c ∷ []) = []
from_hex (c ∷ d ∷ s) = (digit_value c * 16 + digit_value d) ∷ from_hex s

digit_value-nibble_to_hex : (n : ℕ) → n < 16 → digit_value (nibble_to_hex n) ≡ n
unfolding digit_value nibble_to_hex
digit_value-nibble_to_hex n h = ground arith

from_hex-to_hex : (bytes : List ℕ) → All IsByte bytes → from_hex (to_hex bytes) ≡ bytes
unfolding from_hex to_hex
from_hex-to_hex [] v = refl
from_hex-to_hex (b ∷ bytes) (h, v) =
    rw
      (
        digit_value-nibble_to_hex (b / 16) (omega arith),
        digit_value-nibble_to_hex (b % 16) (omega arith),
        from_hex-to_hex bytes v,
      )
      (ap (λ n. n ∷ bytes) (omega arith))

pub to_hex_injective : (a b : List ℕ) → All IsByte a → All IsByte b → to_hex a ≡ to_hex b → a ≡ b
to_hex_injective a b v w e = sym (from_hex-to_hex a v) ∙ ap from_hex e ∙ from_hex-to_hex b w
