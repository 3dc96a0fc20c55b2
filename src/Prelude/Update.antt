-- ===== src/Prelude/Update.antt =====
-- Functions from numbers with one value replaced.
use Prim.Native.Nat.{ℕ}
use mathlib.Core.Path.{◌≡◌, sym, subst}
use mathlib.Core.Logic.{◌≢◌}
use native.Mathlib.Omega.{arith}
use native.Mathlib.Decide.{ℕ_discrete}
use rust_llm_inference_gatew.Prelude.Bools.{◌==◌, if◌then◌else◌}

abbrev pub update {ℓ} : {A : Type ℓ} → (ℕ → A) → ℕ → A → ℕ → A
update f i a j = if i == j then a else f j

module _ {ℓ} {A : Type ℓ} (f : ℕ → A) (i : ℕ) (a : A) where
  pub update_self : update f i a i ≡ a
  update_self = ground arith

  pub update_ne : (j : ℕ) → i ≢ j → update f i a j ≡ f j
  update_ne j n = ground arith

  -- What holds of the new value, and of the old ones elsewhere, holds everywhere.
  pub update_all {κ} :
      (P : ℕ → A → Type κ) (j : ℕ) → (i ≡ j → P i a) → (i ≢ j → P j (f j)) → P j (update f i a j)
  update_all P j new old = elim (ℕ_discrete i j) [
    | yes same ↦ subst (λ k. P k (update f i a k)) same (subst (P i) (sym update_self) (new same))
    | no other ↦ subst (P j) (sym (update_ne j other)) (old other)
  ]
