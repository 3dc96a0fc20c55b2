-- ===== src/Batcher/Conservation.antt =====
-- The worker of src/batcher.rs neither loses nor repeats a request.
pub mod Worker
use mathlib.Core.List.{Perm, perm_middle}
use mathlib.Core.List.Perm
use mathlib.Core.Path.{subst₂}
use rust_llm_inference_gatew.Prelude.{
  ℕ, zero, suc, ◌+◌, ◌-◌, ◌≤◌, ◌<◌, ◌≡◌, refl, sym, ap, ◌∙◌, subst, Bool, true, false, inl, inr,
  Option, none, some, List, [], ◌∷◌, ◌++◌, map, arith, length, length-append, All, All-append,
  Bool-cases, Option-cases, append_assoc, append-nil, if◌then◌else◌, max, Result,
}
use rust_llm_inference_gatew.Backend.{BackendError}
use rust_llm_inference_gatew.Models.{BackendChatResponse}
use rust_llm_inference_gatew.Batcher.{
  BatchConfig, BatchClass, class_eq, BatchItem, Signal, arrives, expires, take_class, fill, receive,
  next_first, round, run_batch_worker, responses,
}

module _ {R : Type 0} where
  -- The items among the signals.
  abbrev pub items : List (Signal R) → List (BatchItem R)
  items [] = []
  items (arrives item ∷ signals) = item ∷ items signals
  items (expires ∷ signals) = items signals

  abbrev pub OfClass : BatchClass → BatchItem R → Type 0
  OfClass class item = class_eq item.class class ≡ true

  abbrev pub flatten : List (List (BatchItem R)) → List (BatchItem R)
  flatten [] = []
  flatten (batch ∷ batches) = batch ++ flatten batches

  take_class-some :
      (class : BatchClass) (l : List (BatchItem R)) (x : BatchItem R) (rest : List (BatchItem R))
      → take_class class l ≡ some (x, rest)
      → Perm l (x ∷ rest) × OfClass class x × (suc (length rest) ≡ length l)
  unfolding take_class
  take_class-some class [] x rest e = cc
  take_class-some class (y ∷ ys) x rest e = elim (Bool-cases (class_eq y.class class)) [
    | inl hit ↦
        (subst (Perm (y ∷ ys)) (ground arith) (Perm.refl (y ∷ ys)), ground arith, ground arith)
    | inr miss ↦ elim (Option-cases (take_class class ys)) [
      | inl absent ↦ absurd (ground arith)
      | inr ((z, zs), found) ↦
          let (p, o, n) = take_class-some class ys z zs found in
          let first : z ≡ x = ground arith in
          let others : y ∷ zs ≡ rest = ground arith in
          (
            subst₂ (λ a b. Perm (y ∷ ys) (a ∷ b)) first others
                (Perm.trans (Perm.cons y p) (Perm.swap z y zs)),
            subst (OfClass class) first o,
            omega (arith, n, ap length others),
          )
    ]
  ]

  -- What a round of the inner loop guarantees of its results.
  record Filled (class : BatchClass) (room : ℕ) (batch pending : List (BatchItem R))
      (signals : List (Signal R)) (r : List (BatchItem R) × List (BatchItem R) × List (Signal R))
      : Type 0 where
    kept : Perm (r.0 ++ (r.1 ++ items r.2)) (batch ++ (pending ++ items signals))
    same : All (OfClass class) r.0
    size : length r.0 ≤ length batch + room
    left : length r.1 + length r.2 ≤ length pending + length signals

  stop :
      (class : BatchClass) (room : ℕ) (batch pending : List (BatchItem R))
      (signals signals' : List (Signal R))
      → items signals' ≡ items signals
      → length signals' ≤ length signals
      → All (OfClass class) batch
      → Filled class room batch pending signals (batch, pending, signals')
  stop class room batch pending signals signals' e l a = record {
    kept =
        subst (λ s. Perm (batch ++ (pending ++ s)) (batch ++ (pending ++ items signals))) (sym e)
          (Perm.refl _);
    same = a;
    size = omega arith;
    left = omega arith;
  }

  -- An item moves from the pending ones to the end of the batch.
  move_perm :
      (batch pending rest later : List (BatchItem R)) (x : BatchItem R)
      → Perm pending (x ∷ rest)
      → Perm ((batch ++ x ∷ []) ++ (rest ++ later)) (batch ++ (pending ++ later))
  move_perm batch pending rest later x p =
      subst (λ l. Perm l (batch ++ (pending ++ later)))
        (sym (append_assoc batch (x ∷ []) (rest ++ later)))
        (Perm.append_left batch (Perm.append_right later (Perm.symm p)))

  -- One more item in the batch, from the pending ones or from the channel.
  grow :
      (class : BatchClass) (room : ℕ) (batch pending pending' : List (BatchItem R))
      (signals signals' : List (Signal R)) (x : BatchItem R)
      {r : List (BatchItem R) × List (BatchItem R) × List (Signal R)}
      → Perm
          ((batch ++ x ∷ []) ++ (pending' ++ items signals'))
          (batch ++ (pending ++ items signals))
      → length pending' + length signals' ≤ length pending + length signals
      → Filled class room (batch ++ x ∷ []) pending' signals' r
      → Filled class (suc room) batch pending signals r
  grow class room batch pending pending' signals signals' x p l f = record {
    kept = Perm.trans f.kept p;
    same = f.same;
    size = omega (arith, f.size, length-append batch (x ∷ []));
    left = omega (arith, f.left);
  }

  All-snoc :
      (class : BatchClass) (batch : List (BatchItem R)) (x : BatchItem R)
      → All (OfClass class) batch
      → OfClass class x
      → All (OfClass class) (batch ++ x ∷ [])
  All-snoc class batch x a o = All-append (OfClass class) batch (x ∷ []) a (o, tt)

  grow_pending :
      (class : BatchClass) (room : ℕ) (batch pending rest : List (BatchItem R))
      (signals : List (Signal R)) (x : BatchItem R)
      {r : List (BatchItem R) × List (BatchItem R) × List (Signal R)}
      → take_class class pending ≡ some (x, rest)
      → Filled class room (batch ++ x ∷ []) rest signals r
      → Filled class (suc room) batch pending signals r
  grow_pending class room batch pending rest signals x found f =
      let (p, o, n) = take_class-some class pending x rest found in
      grow class room batch pending rest signals signals x
        (move_perm batch pending rest (items signals) x p) (omega (arith, n)) f

  grow_arrival :
      (class : BatchClass) (room : ℕ) (batch pending : List (BatchItem R))
      (signals : List (Signal R)) (x : BatchItem R)
      {r : List (BatchItem R) × List (BatchItem R) × List (Signal R)}
      → Filled class room (batch ++ x ∷ []) pending signals r
      → Filled class (suc room) batch pending (arrives x ∷ signals) r
  grow_arrival class room batch pending signals x f =
      grow class room batch pending pending (arrives x ∷ signals) signals x
        (subst (λ l. Perm l (batch ++ (pending ++ x ∷ items signals)))
          (sym (append_assoc batch (x ∷ []) (pending ++ items signals)))
          (Perm.append_left batch (Perm.symm (perm_middle pending (items signals)))))
        (omega arith) f

  -- An arrival of another class waits.
  defer :
      (class : BatchClass) (room : ℕ) (batch pending : List (BatchItem R))
      (signals : List (Signal R)) (x : BatchItem R)
      {r : List (BatchItem R) × List (BatchItem R) × List (Signal R)}
      → Filled class room batch (pending ++ x ∷ []) signals r
      → Filled class room batch pending (arrives x ∷ signals) r
  defer class room batch pending signals x {r} f = record {
    kept =
        subst (λ l. Perm (r.0 ++ (r.1 ++ items r.2)) (batch ++ l))
          (append_assoc pending (x ∷ []) (items signals)) f.kept;
    same = f.same;
    size = f.size;
    left = omega (arith, f.left, length-append pending (x ∷ []));
  }

  fill-Filled :
      (class : BatchClass) (room : ℕ) (batch pending : List (BatchItem R))
      (signals : List (Signal R))
      → All (OfClass class) batch
      → Filled class room batch pending signals (fill class room batch pending signals)
  unfolding fill
  fill-Filled class zero batch pending signals a =
      stop class zero batch pending signals signals refl (omega arith) a
  fill-Filled class (suc room) batch pending [] a = elim (Option-cases (take_class class pending)) [
    | inl absent ↦
        rw (absent, fill) (stop class (suc room) batch pending [] [] refl (omega arith) a)
    | inr ((x, rest), found) ↦
        rw (found, fill)
          (grow_pending class room batch pending rest [] x found (
            fill-Filled class room (batch ++ x ∷ []) rest []
              (All-snoc class batch x a (take_class-some class pending x rest found).1)))
  ]
  fill-Filled class (suc room) batch pending (expires ∷ signals) a =
      elim (Option-cases (take_class class pending)) [
        | inl absent ↦
            rw (absent, fill)
              (stop class (suc room) batch pending (expires ∷ signals) signals refl (omega arith) a)
        | inr ((x, rest), found) ↦
            rw (found, fill)
              (grow_pending class room batch pending rest (expires ∷ signals) x found (
                fill-Filled class room (batch ++ x ∷ []) rest (expires ∷ signals)
                  (All-snoc class batch x a (take_class-some class pending x rest found).1)))
      ]
  fill-Filled class (suc room) batch pending (arrives next ∷ signals) a =
      elim (Option-cases (take_class class pending)) [
        | inl absent ↦ elim (Bool-cases (class_eq next.class class)) [
          | inl own ↦
              rw (absent, fill, own)
                (grow_arrival class room batch pending signals next (
                  fill-Filled class room (batch ++ next ∷ []) pending signals
                    (All-snoc class batch next a own)))
          | inr other ↦
              rw (absent, fill, other)
                (defer class (suc room) batch pending signals next
                  (fill-Filled class (suc room) batch (pending ++ next ∷ []) signals a))
        ]
        | inr ((x, rest), found) ↦
            rw (found, fill)
              (grow_pending class room batch pending rest (arrives next ∷ signals) x found (
                fill-Filled class room (batch ++ x ∷ []) rest (arrives next ∷ signals)
                  (All-snoc class batch x a (take_class-some class pending x rest found).1)))
      ]
