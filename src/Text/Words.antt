-- ===== src/Text/Words.antt =====
-- The words that `split_whitespace` returns.
use mathlib.Core.List.{reverse, reverse_aux, reverse-reverse}
use rust_llm_inference_gatew.Prelude.{
  ℕ, ◌≡◌, refl, ap, sym, ◌∙◌, false, [], ◌∷◌, ◌++◌, append-nil, Bool-cases, inl, inr, All,
}
use rust_llm_inference_gatew.Text.{Text, is_empty, is_whitespace, split_words, split_whitespace}

abbrev IsSolid : ℕ → Type 0
IsSolid c = is_whitespace c ≡ false

-- A text that is not empty and has no white space.
abbrev pub IsWord : Text → Type 0
IsWord w = (is_empty w ≡ false) × All IsSolid w

reverse_aux-All : (l r : Text) → All IsSolid l → All IsSolid r → All IsSolid (reverse_aux l r)
reverse_aux-All [] r v w = w
reverse_aux-All (x ∷ l) r (h, v) w = reverse_aux-All l (x ∷ r) v (h, w)

is_empty-reverse_aux : (l : Text) (x : ℕ) (r : Text) → is_empty (reverse_aux l (x ∷ r)) ≡ false
unfolding is_empty
is_empty-reverse_aux [] x r = refl
is_empty-reverse_aux (y ∷ l) x r = is_empty-reverse_aux l y (x ∷ r)

is_empty-reverse : (w : Text) → is_empty w ≡ false → is_empty (reverse w) ≡ false
unfolding is_empty
is_empty-reverse [] h = h
is_empty-reverse (c ∷ w) h = is_empty-reverse_aux w c []

split_words-read :
    (w word s : Text)
    → All IsSolid w
    → split_words word (w ++ s) ≡ split_words (reverse_aux w word) s
unfolding split_words
split_words-read [] word s v = refl
split_words-read (c ∷ w) word s (h, v) = rw (h, split_words) (split_words-read w (c ∷ word) s v)

pub split_whitespace-space :
    (w s : Text) → IsWord w → split_whitespace (w ++ 32 ∷ s) ≡ w ∷ split_whitespace s
unfolding split_whitespace split_words is_whitespace
split_whitespace-space w s (full, v) =
    split_words-read w [] (32 ∷ s) v
    ∙ rw (is_empty-reverse w full) (ap (λ (x : Text). x ∷ split_words [] s) (reverse-reverse w))

pub split_whitespace-word : (w : Text) → IsWord w → split_whitespace w ≡ w ∷ []
unfolding split_whitespace split_words
split_whitespace-word w (full, v) =
    ap (split_words []) (sym (append-nil w))
    ∙ split_words-read w [] [] v
    ∙ rw (is_empty-reverse w full) (ap (λ (x : Text). x ∷ []) (reverse-reverse w))

reverse-IsWord : (word : Text) → is_empty word ≡ false → All IsSolid word → IsWord (reverse word)
reverse-IsWord word full v = (is_empty-reverse word full, reverse_aux-All word [] v tt)

split_words-IsWord : (word s : Text) → All IsSolid word → All IsWord (split_words word s)
unfolding split_words
split_words-IsWord word [] v = elim (Bool-cases (is_empty word)) [
  | inl empty ↦ rw (empty, split_words) tt
  | inr full ↦ rw (full, split_words) (reverse-IsWord word full v, tt)
]
split_words-IsWord word (c ∷ s) v = elim (Bool-cases (is_whitespace c)) [
  | inl space ↦ elim (Bool-cases (is_empty word)) [
    | inl empty ↦ rw (space, empty, split_words) (split_words-IsWord [] s tt)
    | inr full ↦
        rw (space, full, split_words) (reverse-IsWord word full v, split_words-IsWord [] s tt)
  ]
  | inr solid ↦ rw (solid, split_words) (split_words-IsWord (c ∷ word) s (solid, v))
]

pub split_whitespace-IsWord : (s : Text) → All IsWord (split_whitespace s)
unfolding split_whitespace
split_whitespace-IsWord s = split_words-IsWord [] s tt
