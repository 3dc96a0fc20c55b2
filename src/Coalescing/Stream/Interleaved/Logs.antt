-- ===== src/Coalescing/Stream/Interleaved/Logs.antt =====
-- The history of an entry of src/coalescing.rs against what its leader has published.
use rust_llm_inference_gatew.Prelude.{
  update, update_all, ℕ, Bool, true, false, List, [], ◌∷◌, ◌++◌, ◌≡◌, ◌≢◌, refl, arith,
  if◌then◌else◌,
}
use rust_llm_inference_gatew.Coalescing.Stream.{
  StreamItem, StreamEntry, Channels, subscribe, publish,
}
use rust_llm_inference_gatew.Coalescing.Stream.Interleaved.{
  Phase, joining, waiting, found, removing, stopped,
}
use rust_llm_inference_gatew.Coalescing.Stream.Interleaved.Locks.{is_active, Owns}

-- The leader has published its terminal item.
abbrev pub is_over : Phase → Bool
is_over joining = false
is_over waiting = false
is_over (found item held) = false
is_over removing = true
is_over stopped = true

-- An entry, its leader, and what the leader has published.
pub record Log (e : StreamEntry) (p : Phase) (published : List StreamItem) : Type 0 where
  pub history : e.history ≡ published
  pub closed : e.done ≡ is_over p

pub Log-subscribe :
    (e : StreamEntry) (c : Channels) (p : Phase) (l : List StreamItem)
    → Log e p l
    → Log (subscribe e c).0 p l
unfolding subscribe
Log-subscribe e c p l v = ground arith

-- A leader that has not published a terminal item appends to its history.
pub Log-publish :
    (e : StreamEntry) (c : Channels) (p : Phase) (l : List StreamItem) (item : StreamItem)
    → is_over p ≡ false
    → Log e p l
    → Log
        (publish item e c).0
        (if if e.done then false else (publish item e c).0.done then removing else waiting)
        (l ++ item ∷ [])
unfolding publish
Log-publish e c p l item early v = ground arith

-- The logs after a change of one entry.
module _ (entry : ℕ → StreamEntry) (phase : ℕ → Phase) (published : ℕ → List StreamItem) (id : ℕ)
    (e : StreamEntry) (p : Phase) (l : List StreamItem) where
  abbrev pub LogOf : ℕ → StreamEntry → Type 0
  LogOf j x = Log x (update phase id p j) (update published id l j)

  update_logs_self : Log e p l → LogOf id e
  update_logs_self new =
      update_all phase id p (λ j q. Log e q (update published id l j)) id
        (λ _. update_all published id l (λ j r. Log e p r) id (λ _. new) (λ n. absurd (n refl)))
        (λ n. absurd (n refl))

  update_logs_ne : (i : ℕ) → id ≢ i → Log (entry i) (phase i) (published i) → LogOf i (entry i)
  update_logs_ne i n old =
      update_all phase id p (λ j q. Log (entry i) q (update published id l j)) i
        (λ same. absurd (n same))
        (λ _.
          update_all published id l (λ j r. Log (entry i) (phase i) r) i (λ same. absurd (n same))
            (λ _. old))

  pub update_logs :
      (i : ℕ)
      → Log e p l
      → (id ≢ i → Log (entry i) (phase i) (published i))
      → LogOf i (update entry id e i)
  update_logs i new old =
      update_all entry id e LogOf i (λ _. update_logs_self new) (λ n. update_logs_ne i n (old n))

-- After a publication the leader is between two calls, or about to remove its key.
pub publishing_phase :
    (b : Bool) (id : ℕ)
    → (is_active (if b then removing else waiting) ≡ true)
      × Owns id (if b then removing else waiting)
publishing_phase true id = (refl, tt)
publishing_phase false id = (refl, tt)
