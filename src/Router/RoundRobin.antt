-- ===== src/Router/RoundRobin.antt =====
-- Fairness of `select_endpoint` of src/router.rs while every endpoint is healthy.
use rust_llm_inference_gatew.Prelude.{
  ℕ, zero, suc, ◌+◌, ◌%◌, ◌^◌, ◌<◌, ◌≡◌, refl, ap, ◌∙◌, none, some, List, [], ◌∷◌, Result, ok,
  arith, length, get_elem?, set, get_elem?-some, lt-length_of_some,
}
use native.Mathlib.Nat.{mod-lt, mod-eq_of_lt}
use mathlib.Core.Path.{ap₂}
use rust_llm_inference_gatew.Backend.{BackendError}
use rust_llm_inference_gatew.Router.{
  EndpointHealth, BackendRouter, visit, visit_at, scan, selected, select_endpoint,
}
use rust_llm_inference_gatew.Router.Select.{tried, tried-reaches, tried-once}

-- No circuit is open.
abbrev pub AllClosed : List EndpointHealth → Type 0
AllClosed hs = (i : ℕ) (h : EndpointHealth) → get_elem? hs i ≡ some h → h.circuit_open_until ≡ none

-- The results of selections at the given times, one after the other.
pub choices : BackendRouter → List ℕ → List (Result ℕ BackendError)
choices r [] = []
choices r (now ∷ times) = (select_endpoint r now).1 ∷ choices (select_endpoint r now).0 times

set_same :
    (hs : List EndpointHealth) (i : ℕ) (h : EndpointHealth)
    → get_elem? hs i ≡ some h
    → set hs i h ≡ hs
set_same [] i h e = refl
set_same (x ∷ xs) zero h e = ground arith
set_same (x ∷ xs) (suc i) h e = ap (◌∷◌ x) (set_same xs i h e)

visit_closed : (now : ℕ) (h : EndpointHealth) → h.circuit_open_until ≡ none → visit now h ≡ some h
unfolding visit
visit_closed now h e = ground arith

module _ (r : BackendRouter) (now : ℕ) (nonempty : 0 < length r.endpoints)
    (closed : AllClosed r.endpoints) where
  visit_at_closed :
      (i : ℕ) (h : EndpointHealth)
      → get_elem? r.endpoints i ≡ some h
      → visit_at now r.endpoints i ≡ some h
  unfolding visit_at
  visit_at_closed i h e = ground (arith, visit_closed now h (closed i h e))

  scan_closed :
      (left : ℕ)
      → 0 < left
      → scan left 0 r.next_index now r.endpoints
        ≡ some (tried (length r.endpoints) r.next_index 0, r.endpoints)
  unfolding scan
  scan_closed zero h = absurd (omega arith)
  scan_closed (suc left) h =
      let i = tried (length r.endpoints) r.next_index 0 in
      let (health, here) =
        get_elem?-some r.endpoints i (mod-lt _ {m = length r.endpoints} nonempty) in
      rw (visit_at_closed i health here, scan)
        (ap (λ hs. some (i, hs)) (set_same r.endpoints i health here))

  -- With no circuit open, a selection takes the endpoint whose turn it is.
  select_endpoint_closed : select_endpoint r now ≡ (
    record r { next_index = (r.next_index + 1) % 2 ^ 64 },
    ok (tried (length r.endpoints) r.next_index 0),
  )
  unfolding select_endpoint
  select_endpoint_closed = rw (scan_closed (length r.endpoints) nonempty, selected)

-- The positions that follow one another round a circle of `total`.
abbrev pub turns : ℕ → ℕ → ℕ → List (Result ℕ BackendError)
turns total start zero = []
turns total start (suc n) = ok (start % total) ∷ turns total (start + 1) n

select_endpoint-turn :
    (r : BackendRouter) (now : ℕ)
    → 0 < length r.endpoints
    → AllClosed r.endpoints
    → r.next_index + 1 < 2 ^ 64
    → select_endpoint r now
      ≡ (record r { next_index = r.next_index + 1 }, ok (r.next_index % length r.endpoints))
select_endpoint-turn r now n c h =
    select_endpoint_closed r now n c
    ∙ ap₂ {C = BackendRouter × Result ℕ BackendError}
        (λ a b. (record r { next_index = a }, ok (b % length r.endpoints))) (mod-eq_of_lt h)
        (omega arith)

choices-turns :
    (r : BackendRouter) (times : List ℕ)
    → 0 < length r.endpoints
    → AllClosed r.endpoints
    → r.next_index + length times < 2 ^ 64
    → choices r times ≡ turns (length r.endpoints) r.next_index (length times)
unfolding choices
choices-turns r [] n c h = refl
choices-turns r (now ∷ times) n c h = rw (select_endpoint-turn r now n c (omega arith)) (
    ap (◌∷◌ (ok (r.next_index % length r.endpoints)))
      (choices-turns (record r { next_index = r.next_index + 1 }) times n c (omega arith)))

turn_at : ℕ → ℕ → ℕ → Result ℕ BackendError
turn_at total start k = ok (tried total start k)

get_elem?-turns :
    (total start n k : ℕ)
    → k < n
    → start + n < 2 ^ 64
    → get_elem? (turns total start n) k ≡ some (turn_at total start k)
unfolding turn_at
get_elem?-turns total start zero k lt h = absurd (omega arith)
get_elem?-turns total start (suc n) zero lt h = ap (λ (t : ℕ). some (ok (t % total))) (omega arith)
get_elem?-turns total start (suc n) (suc k) lt h =
    get_elem?-turns total (start + 1) n k (omega arith) (omega arith)
    ∙ unfold turn_at in ap (λ (t : ℕ). some (ok (t % 2 ^ 64 % total))) (omega arith)

length-turns : (total start n : ℕ) → length (turns total start n) ≡ n
length-turns total start zero = refl
length-turns total start (suc n) = ap suc (length-turns total (start + 1) n)

-- Of as many successive selections as there are endpoints, with no circuit open and no wrap of the
-- counter, exactly one takes each endpoint.
pub choices-fair :
    (r : BackendRouter) (times : List ℕ) (i : ℕ)
    → AllClosed r.endpoints
    → length times ≡ length r.endpoints
    → r.next_index + length r.endpoints < 2 ^ 64
    → i < length r.endpoints
    → (k : ℕ) × (get_elem? (choices r times) k ≡ some (ok i))
      × ((j : ℕ) → get_elem? (choices r times) j ≡ some (ok i) → j ≡ k)
choices-fair r times i c same room lt =
    let (k, below, e) = tried-reaches (length r.endpoints) r.next_index i lt (omega arith) in
    (
      k,
      here k below ∙ ap (λ (t : ℕ). some (ok t)) e,
      λ j at_j.
          let lt_j : j < length r.endpoints = bound j (ok i) at_j in
          tried-once (length r.endpoints) r.next_index j k lt_j below (omega arith)
            (ground (arith, here j lt_j, e)),
    )
  where
    total : ℕ
    total = length r.endpoints

    all_turns : choices r times ≡ turns total r.next_index total
    all_turns =
        choices-turns r times (omega arith) c (omega arith) ∙ ap (turns total r.next_index) same

    here :
        (k : ℕ) → k < total → get_elem? (choices r times) k ≡ some (ok (tried total r.next_index k))
    here k below =
        rw all_turns (unfold turn_at in get_elem?-turns total r.next_index total k below room)

    bound : (j : ℕ) (x : Result ℕ BackendError) → get_elem? (choices r times) j ≡ some x → j < total
    bound j x e = omega (
      arith,
      lt-length_of_some (choices r times) j x e,
      ap length all_turns,
      length-turns total r.next_index total,
    )
