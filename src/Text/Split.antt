-- ===== src/Text/Split.antt =====
-- `str::split` at a character, and its inverse.
use rust_llm_inference_gatew.Prelude.{
  ℕ, ◌≡◌, ◌≢◌, refl, ap, ◌∙◌, false, List, [], ◌∷◌, ◌++◌, arith, ◌==◌, if◌then◌else◌, All,
}
use rust_llm_inference_gatew.Text.{Text}

push_front : ℕ → List Text → List Text
push_front c [] = (c ∷ []) ∷ []
push_front c (w ∷ ws) = (c ∷ w) ∷ ws

unfoldable pub split : ℕ → Text → List Text
unfolding push_front
split sep [] = [] ∷ []
split sep (c ∷ s) = let rest = split sep s in if c == sep then [] ∷ rest else push_front c rest

-- The words with the character between them.
unfoldable pub join : ℕ → List Text → Text
join sep [] = []
join sep (w ∷ []) = w
join sep (w ∷ w' ∷ ws) = w ++ (sep ∷ join sep (w' ∷ ws))

-- A text in which the character does not stand.
abbrev pub Lacks : ℕ → Text → Type 0
Lacks sep w = All (λ c. (c == sep) ≡ false) w

split_at_end : (sep : ℕ) (w : Text) → Lacks sep w → split sep w ≡ w ∷ []
unfolding split
split_at_end sep [] v = refl
split_at_end sep (c ∷ w) (h, v) = rw h (rw (split_at_end sep w v) refl)

split_at_sep : (sep : ℕ) (w s : Text) → Lacks sep w → split sep (w ++ sep ∷ s) ≡ w ∷ split sep s
unfolding split
split_at_sep sep [] s v = ground arith
split_at_sep sep (c ∷ w) s (h, v) = rw h (rw (split_at_sep sep w s v) refl)

pub split-join :
    (sep : ℕ) (ws : List Text) → ws ≢ [] → All (Lacks sep) ws → split sep (join sep ws) ≡ ws
unfolding join
split-join sep [] full v = absurd (full refl)
split-join sep (w ∷ []) full (h, v) = split_at_end sep w h
split-join sep (w ∷ w' ∷ ws) full (h, v) =
    split_at_sep sep w (join sep (w' ∷ ws)) h
    ∙ ap (λ (xs : List Text). w ∷ xs) (split-join sep (w' ∷ ws) (λ e. cc) v)
