-- ===== src/Router/Select.antt =====
-- Which endpoint `select_endpoint` of src/router.rs takes, and when it gives up.
pub mod Choice
use rust_llm_inference_gatew.Prelude.{
  ℕ, zero, suc, ◌+◌, ◌-◌, ◌%◌, ◌^◌, ◌≤◌, ◌<◌, ◌≡◌, refl, ◌⊎◌, inl, inr, ◌≢◌, ap, ◌∙◌, Option, none,
  some, List, [], ◌∷◌, Result, ok, err, arith, length, get_elem?, set, as_u64, Option-cases, subst,
  sym, dec_lt, ℕ_discrete, get_elem?-some, length-set, lt-length_of_some,
}
use native.Mathlib.Nat.{mod-lt, mod-eq_of_lt, mod-add-mod, add-mod_right, mod-eq-sub-mod}
use rust_llm_inference_gatew.Text.{lit}
use rust_llm_inference_gatew.Backend.{BackendError, unavailable}
use rust_llm_inference_gatew.Router.{
  EndpointHealth, BackendRouter, visit, visit_at, scan, selected, select_endpoint,
}

-- The circuit of endpoint `i` is open at `now`.
pub record IsOpen (now : ℕ) (endpoints : List EndpointHealth) (i : ℕ) : Type 0 where
  pub health : EndpointHealth
  pub until : ℕ
  pub here : get_elem? endpoints i ≡ some health
  pub opened : health.circuit_open_until ≡ some until
  pub later : now < until

-- The endpoint that is tried at an offset from where a round starts.
abbrev pub tried : ℕ → ℕ → ℕ → ℕ
tried total start k = as_u64 (start + k) % total

abbrev Skipped : ℕ → ℕ → List EndpointHealth → ℕ → ℕ → Type 0
Skipped start now hs from to =
    (k : ℕ) → from ≤ k → k < to → visit_at now hs (tried (length hs) start k) ≡ none

-- How a scan ends: past all its offsets, or at the first endpoint that it does not skip.
data Scanned (start now : ℕ) (hs : List EndpointHealth) (offset stop : ℕ)
    : Option (ℕ × List EndpointHealth) → Type 0 where
  exhausted :
      {o : Option (ℕ × List EndpointHealth)}
      → o ≡ none
      → Skipped start now hs offset stop
      → Scanned start now hs offset stop o
  found :
      {o : Option (ℕ × List EndpointHealth)} (k : ℕ) (h : EndpointHealth)
      → offset ≤ k
      → k < stop
      → visit_at now hs (tried (length hs) start k) ≡ some h
      → o ≡ some (tried (length hs) start k, set hs (tried (length hs) start k) h)
      → Skipped start now hs offset k
      → Scanned start now hs offset stop o

extend-Skipped :
    (start now : ℕ) (hs : List EndpointHealth) (offset stop : ℕ)
    → visit_at now hs (tried (length hs) start offset) ≡ none
    → Skipped start now hs (offset + 1) stop
    → Skipped start now hs offset stop
extend-Skipped start now hs offset stop first rest k le lt = elim (ℕ_discrete offset k) [
  | yes e ↦ subst (λ j. visit_at now hs (tried (length hs) start j) ≡ none) e first
  | no n ↦ rest k (omega arith) lt
]

extend-Scanned :
    (start now : ℕ) (hs : List EndpointHealth) (offset stop : ℕ)
    {o : Option (ℕ × List EndpointHealth)}
    → visit_at now hs (tried (length hs) start offset) ≡ none
    → Scanned start now hs (offset + 1) stop o
    → Scanned start now hs offset stop o
extend-Scanned start now hs offset stop first (exhausted e s) =
    exhausted e (extend-Skipped start now hs offset stop first s)
extend-Scanned start now hs offset stop first (found k h le lt v e s) =
    found k h (omega arith) lt v e (extend-Skipped start now hs offset k first s)

scan-Scanned :
    (left offset start now : ℕ) (hs : List EndpointHealth)
    → Scanned start now hs offset (offset + left) (scan left offset start now hs)
unfolding scan
scan-Scanned zero offset start now hs = exhausted refl (λ k le lt. absurd (omega arith))
scan-Scanned (suc left) offset start now hs =
    elim (Option-cases (visit_at now hs (tried (length hs) start offset))) [
      | inl skip ↦
          rw (skip, scan)
            (extend-Scanned start now hs offset (offset + suc left) skip (
              subst
                (λ stop.
                  Scanned start now hs (offset + 1) stop (scan left (offset + 1) start now hs))
                (omega arith) (scan-Scanned left (offset + 1) start now hs)))
      | inr (h, take) ↦
          found offset h (omega arith) (omega arith) take (rw (take, scan))
            (λ k le lt. absurd (omega arith))
    ]

visit-none :
    (now : ℕ) (h : EndpointHealth)
    → visit now h ≡ none
    → (until : ℕ) × (h.circuit_open_until ≡ some until) × (now < until)
unfolding visit
visit-none now h e = elim (Option-cases h.circuit_open_until) [
  | inl closed ↦ ground arith
  | inr (until, opened) ↦ (until, opened, ground arith)
]

visit-some :
    (now : ℕ) (h h' : EndpointHealth) (until : ℕ)
    → visit now h ≡ some h'
    → (h'.circuit_open_until ≡ none) × (h.circuit_open_until ≡ some until → ¬ (now < until))
unfolding visit
visit-some now h h' until e = ground arith

-- An endpoint that is skipped is open.
visit_at-IsOpen :
    (now : ℕ) (hs : List EndpointHealth) (i : ℕ)
    → i < length hs
    → visit_at now hs i ≡ none
    → IsOpen now hs i
unfolding visit_at
visit_at-IsOpen now hs i lt e =
    let (h, here) = get_elem?-some hs i lt in
    let (until, opened, later) = visit-none now h (ground arith) in
    record { health = h; until = until; here = here; opened = opened; later = later }

-- An endpoint that is taken is not.
pub visit_at-not_IsOpen :
    (now : ℕ) (hs : List EndpointHealth) (i : ℕ) (h : EndpointHealth)
    → visit_at now hs i ≡ some h
    → ¬ IsOpen now hs i
unfolding visit_at
visit_at-not_IsOpen now hs i h e o =
    (visit-some now o.health h o.until (ground (arith, o.here))).1 o.opened o.later

visit_at-closed :
    (now : ℕ) (hs : List EndpointHealth) (i : ℕ) (h : EndpointHealth)
    → visit_at now hs i ≡ some h
    → (h.circuit_open_until ≡ none) × (i < length hs)
unfolding visit_at
visit_at-closed now hs i h e = elim (Option-cases (get_elem? hs i)) [
  | inl out ↦ ground arith
  | inr (h₀, here) ↦ ((visit-some now h₀ h 0 (ground arith)).0, lt-length_of_some hs i h₀ here)
]

pub visit_at-before :
    (now : ℕ) (hs : List EndpointHealth) (i : ℕ) (h : EndpointHealth)
    → visit_at now hs i ≡ some h
    → (before : EndpointHealth) × (get_elem? hs i ≡ some before) × (visit now before ≡ some h)
unfolding visit_at
visit_at-before now hs i h e = elim (Option-cases (get_elem? hs i)) [
  | inl out ↦ ground arith
  | inr (before, here) ↦ (before, here, ground arith)
]

-- A visit that is not skipped forgets the failures of a circuit that was open, and keeps those of one
-- that was closed.
pub visit-keeps :
    (now : ℕ) (before h : EndpointHealth)
    → visit now before ≡ some h
    → (h.consecutive_failures
        ≡ (elim before.circuit_open_until [ none ↦ before.consecutive_failures | some until ↦ 0 ]))
      × (h.last_latency_ms ≡ before.last_latency_ms)
unfolding visit
visit-keeps now before h e = elim (Option-cases before.circuit_open_until) [
  | inl closed ↦ ground arith
  | inr (until, opened) ↦ ground arith
]

tried-lt : (n start k : ℕ) → 0 < n → tried n start k < n
tried-lt n start k h = grind arith

tried-mod : (n start k : ℕ) → start + k < 2 ^ 64 → tried n start k ≡ (start % n + k) % n
tried-mod n start k h = rw (mod-eq_of_lt h) (sym (mod-add-mod start n k))

-- A round of offsets comes to every endpoint, where the counter does not wrap within it.
pub tried-reaches :
    (n start i : ℕ) → i < n → start + n ≤ 2 ^ 64 → (k : ℕ) × (k < n) × (tried n start k ≡ i)
tried-reaches n start i lt room = elim (dec_lt i (start % n)) [
  | yes before ↦ (
    i + n - start % n,
    omega (arith, mod-lt start {m = n} (omega arith)),
    tried-mod n start (i + n - start % n) (omega (arith, mod-lt start {m = n} (omega arith)))
        ∙ ap (λ t. t % n) (omega (arith, mod-lt start {m = n} (omega arith)))
        ∙ add-mod_right i n
        ∙ mod-eq_of_lt lt,
  )
  | no after ↦ (
    i - start % n,
    omega arith,
    tried-mod n start (i - start % n) (omega arith)
        ∙ ap (λ t. t % n) (omega arith)
        ∙ mod-eq_of_lt lt,
  )
]

-- ... and to none twice.
pub tried-once :
    (n start j k : ℕ)
    → j < n
    → k < n
    → start + n ≤ 2 ^ 64
    → tried n start j ≡ tried n start k
    → j ≡ k
tried-once n start j k hj hk room e = grind (
  arith,
  mod-lt start {m = n} (omega arith),
  tried-mod n start j (omega arith),
  tried-mod n start k (omega arith),
  mod-eq-sub-mod,
  mod-eq_of_lt,
)
