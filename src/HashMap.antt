-- ===== src/HashMap.antt =====
-- `HashMap<String, V>` as an association list. The gateway never iterates over its maps, so the
-- order of entries is not modelled; clients reason by the laws below.
use rust_llm_inference_gatew.Prelude.{
  ◌≡◌, refl, ◌≢◌, Option, none, some, List, [], ◌∷◌, arith, if◌then◌else◌,
}
use rust_llm_inference_gatew.Text.{Text, text_eq, text_eq_iff}

pub record HashMap {ℓ} (V : Type ℓ) : Type ℓ where
  pub entries : List (Text × V)

module _ {ℓ} {V : Type ℓ} where
  lookup : Text → List (Text × V) → Option V
  lookup k [] = none
  lookup k ((j, v) ∷ l) = if text_eq j k then some v else lookup k l

  without : Text → List (Text × V) → List (Text × V)
  without k [] = []
  without k ((j, v) ∷ l) = let rest = without k l in if text_eq j k then rest else (j, v) ∷ rest

  abbrev pub empty : HashMap V
  empty = record { entries = [] }

  unfoldable pub get : HashMap V → Text → Option V
  unfolding lookup
  get m k = lookup k m.entries

  unfoldable pub insert : HashMap V → Text → V → HashMap V
  unfolding without
  insert m k v = record { entries = (k, v) ∷ without k m.entries }

  unfoldable pub remove : HashMap V → Text → HashMap V
  unfolding without
  remove m k = record { entries = without k m.entries }

  lookup-without :
      (k j : Text) (l : List (Text × V))
      → lookup j (without k l) ≡ (if text_eq k j then none else lookup j l)
  unfolding lookup without
  lookup-without k j [] = ground arith
  lookup-without k j ((i, v) ∷ l) =
      ground (arith, lookup-without k j l, text_eq_iff i k, text_eq_iff i j, text_eq_iff k j)

  pub get-empty : (k : Text) → get empty k ≡ none
  unfolding get
  get-empty k = refl

  pub get-remove :
      (m : HashMap V) (k j : Text) → get (remove m k) j ≡ (if text_eq k j then none else get m j)
  unfolding get remove
  get-remove m k j = lookup-without k j m.entries

  pub get-insert :
      (m : HashMap V) (k j : Text) (v : V)
      → get (insert m k v) j ≡ (if text_eq k j then some v else get m j)
  unfolding get insert
  get-insert m k j v = ground (arith, lookup-without k j m.entries)

  pub get-insert_self : (m : HashMap V) (k : Text) (v : V) → get (insert m k v) k ≡ some v
  get-insert_self m k v = ground (arith, get-insert m k k v, text_eq_iff k k)

  pub get-insert_ne : (m : HashMap V) (k j : Text) (v : V) → k ≢ j → get (insert m k v) j ≡ get m j
  get-insert_ne m k j v h = ground (arith, get-insert m k j v, text_eq_iff k j)

  pub get-remove_self : (m : HashMap V) (k : Text) → get (remove m k) k ≡ none
  get-remove_self m k = ground (arith, get-remove m k k, text_eq_iff k k)

  pub get-remove_ne : (m : HashMap V) (k j : Text) → k ≢ j → get (remove m k) j ≡ get m j
  get-remove_ne m k j h = ground (arith, get-remove m k j, text_eq_iff k j)

pub ruleset hash_map_laws = (get-empty, get-remove, get-insert)
