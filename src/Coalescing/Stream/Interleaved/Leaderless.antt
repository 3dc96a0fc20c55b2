-- ===== src/Coalescing/Stream/Interleaved/Leaderless.antt =====
-- A leader of src/coalescing.rs that stays in its own `join_or_create_stream`.
use rust_llm_inference_gatew.Prelude.{
  update, update_all, update_ne, update_self, ℕ, ◌++◌, ◌∷◌, List, [], Bool, false, true, ◌≡◌, ◌<◌,
  refl, sym, ap, subst, ◌∙◌, if◌then◌else◌, Option-cases, ℕ_discrete, inl, inr,
}
use rust_llm_inference_gatew.Text.{Text}
use rust_llm_inference_gatew.HashMap.{get}
use rust_llm_inference_gatew.Coalescing.Stream.{StreamItem}
use rust_llm_inference_gatew.Coalescing.Stream.Shared.{
  look_up, look_up_result, attach, find_entry, push_item,
}
use rust_llm_inference_gatew.Coalescing.Stream.Interleaved.{
  Phase, joining, waiting, found, removing, stopped, System, Step, Reach, initial, calls,
  subscribes, waits, finds, looked, pushes, removes, goes_away, call, follow, lead, find, push,
  clear, hangs_up, start, later,
}
use rust_llm_inference_gatew.Coalescing.Stream.Interleaved.Locks.{is_active}
use rust_llm_inference_gatew.Coalescing.Stream.Interleaved.Promises.{
  Reach-delivers, get-stream_inflight_iff,
}

-- A leader in its own `join_or_create_stream` has published nothing.
abbrev Silent : Phase → List StreamItem → Type 0
Silent joining l = l ≡ []
Silent waiting l = Unit
Silent (found item held) l = Unit
Silent removing l = Unit
Silent stopped l = Unit

abbrev AllSilent : (ℕ → Phase) → (ℕ → List StreamItem) → Type 0
AllSilent phase published = (id : ℕ) → Silent (phase id) (published id)

Silent-after_push : (b : Bool) (l : List StreamItem) → Silent (if b then removing else waiting) l
Silent-after_push true l = tt
Silent-after_push false l = tt

module _ (phase : ℕ → Phase) (published : ℕ → List StreamItem) (v : AllSilent phase published)
    (id : ℕ) where
  phase-AllSilent : (p : Phase) → Silent p (published id) → AllSilent (update phase id p) published
  phase-AllSilent p h i =
      update_all phase id p (λ j q. Silent q (published j)) i (λ _. h) (λ _. v i)

  published-AllSilent :
      (l : List StreamItem) → Silent (phase id) l → AllSilent phase (update published id l)
  published-AllSilent l h i =
      update_all published id l (λ j r. Silent (phase j) r) i (λ _. h) (λ _. v i)

  both-AllSilent :
      (p : Phase) (l : List StreamItem)
      → Silent p l
      → AllSilent (update phase id p) (update published id l)
  both-AllSilent p l h i = elim (ℕ_discrete id i) [
    | yes same ↦
        subst (λ j. Silent (update phase id p j) (update published id l j)) same
          (rw (update_self phase id p, update_self published id l) h)
    | no other ↦ rw (update_ne phase id p i other, update_ne published id l i other) (v i)
  ]

module _ (s : System) (v : AllSilent s.phase s.published) where
  calls-AllSilent : (k : Text) → AllSilent (calls s k).phase (calls s k).published
  unfolding calls look_up look_up_result
  calls-AllSilent k = elim (Option-cases (get s.shared.stream_inflight k)) [
    | inl free ↦ rw free (both-AllSilent s.phase s.published v s.shared.next_entry joining [] refl)
    | inr (id, taken) ↦ rw taken v
  ]

  finds-AllSilent :
      (id : ℕ) (item : StreamItem)
      → s.phase id ≡ waiting
      → AllSilent (finds s id item).phase (finds s id item).published
  unfolding finds looked
  finds-AllSilent id item at = elim (Option-cases (find_entry s.shared (s.key id))) [
    | inl lost ↦ rw lost (
        published-AllSilent s.phase s.published v id (s.published id ++ item ∷ [])
          (subst (λ p. Silent p (s.published id ++ item ∷ [])) (sym at) tt))
    | inr (held, same) ↦ rw same (phase-AllSilent s.phase s.published v id (found item held) tt)
  ]

Step-AllSilent :
    {s t : System} → Step s t → AllSilent s.phase s.published → AllSilent t.phase t.published
unfolding subscribes attach waits pushes removes goes_away
Step-AllSilent {s} (call k) v = calls-AllSilent s v k
Step-AllSilent {s} (follow id lt) v = v
Step-AllSilent {s} (lead id lt at) v = phase-AllSilent s.phase s.published v id waiting tt
Step-AllSilent {s} (find id item lt at) v = finds-AllSilent s v id item at
Step-AllSilent {s} (push id item held lt at) v =
    both-AllSilent s.phase s.published v id _ _
      (Silent-after_push (push_item s.shared held item).1 (s.published id ++ item ∷ []))
Step-AllSilent {s} (clear id lt at) v = phase-AllSilent s.phase s.published v id stopped tt
Step-AllSilent {s} (hangs_up rx) v = v

Reach-AllSilent : {s : System} → Reach initial s → AllSilent s.phase s.published
Reach-AllSilent start = λ id. tt
Reach-AllSilent (later r st) = Step-AllSilent st (Reach-AllSilent r)

-- As long as the caller that made an entry has not returned from `join_or_create_stream` (its future
-- may be dropped while it waits for the lock of the entry), every other caller of its key joins that
-- entry as a follower, and no receiver of the entry that is still there has been sent anything.
pub look_up-joining :
    {s : System} (id : ℕ)
    → Reach initial s
    → id < s.shared.next_entry
    → s.phase id ≡ joining
    → (look_up s.shared (s.key id) ≡ (s.shared, id, false))
      × ((rx : ℕ)
          → rx < s.shared.channels.next
          → s.shared.channels.alive rx ≡ true
          → s.source rx ≡ id
          → s.shared.channels.sent rx ≡ [])
unfolding look_up look_up_result
look_up-joining {s} id r lt at = (
  rw ((get-stream_inflight_iff (s.key id) id r).1 (lt, refl, ap is_active at)) refl,
  λ rx rx_lt a mine.
      Reach-delivers rx r rx_lt a
      ∙ ap s.published mine
      ∙ subst (λ p. Silent p (s.published id)) at (Reach-AllSilent r id),
)
