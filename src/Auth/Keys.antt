-- ===== src/Auth/Keys.antt =====
-- Which keys src/auth.rs accepts.
use rust_llm_inference_gatew.Prelude.{
  ◌≡◌, ◌≢◌, refl, sym, ap, ◌∙◌, subst, ◌↔◌, inl, inr, true, false, some, List, [], ◌∷◌, ◌++◌, ok,
  err, All, In, Bool-cases,
}
use rust_llm_inference_gatew.Text.{Text, lit, text_eq, text_eq_iff, trim, is_empty}
use rust_llm_inference_gatew.Text.Split.{join, Lacks, split-join}
use rust_llm_inference_gatew.Env.{Env, unwrap_or}
use rust_llm_inference_gatew.Errors.{unauthorized}
use rust_llm_inference_gatew.Auth.{
  AuthContext, ApiKeyRegistry, trimmed_keys, or_dev_key, keys_from_env, registry_from_env, contains,
  authenticate_key, authenticate, redact_key,
}

-- A key that can stand in the list of the environment: not empty, with no comma and no white space at
-- its ends.
pub record IsKey (key : Text) : Type 0 where
  pub trimmed : trim key ≡ key
  pub full : is_empty key ≡ false
  pub no_comma : Lacks 44 key

contains_iff : (keys : List Text) (key : Text) → (contains keys key ≡ true) ↔ In key keys
unfolding contains
contains_iff [] key = (λ e. absurd (cc), λ i. absurd i)
contains_iff (k ∷ keys) key = elim (Bool-cases (text_eq k key)) [
  | inl same ↦ rw same ((λ e. inl (sym ((text_eq_iff k key).0 same))), λ i. refl)
  | inr other ↦ rw other (
    (λ e. inr ((contains_iff keys key).0 e)),
    λ i. elim i [
      | inl e ↦ absurd (cc ((text_eq_iff k key).1 (sym e)))
      | inr j ↦ (contains_iff keys key).1 j
    ],
  )
]

trimmed_keys-IsKey : (keys : List Text) → All IsKey keys → trimmed_keys keys ≡ keys
unfolding trimmed_keys
trimmed_keys-IsKey [] v = refl
trimmed_keys-IsKey (key ∷ keys) (k, v) =
    rw (k.trimmed, k.full) (ap (λ (ks : List Text). key ∷ ks) (trimmed_keys-IsKey keys v))

no_commas : (keys : List Text) → All IsKey keys → All (Lacks 44) keys
no_commas [] v = tt
no_commas (key ∷ keys) (k, v) = (k.no_comma, no_commas keys v)

full_of_In : (keys : List Text) (key : Text) → All IsKey keys → In key keys → is_empty key ≡ false
full_of_In [] key v i = absurd i
full_of_In (k ∷ keys) key (h, v) (inl e) = ap is_empty e ∙ h.full
full_of_In (k ∷ keys) key (h, v) (inr i) = full_of_In keys key v i

or_dev_key-full : (keys : List Text) → keys ≢ [] → or_dev_key keys ≡ keys
unfolding or_dev_key
or_dev_key-full [] full = absurd (full refl)
or_dev_key-full (key ∷ keys) full = refl

keys_from_env-join :
    (env : Env) (keys : List Text)
    → keys ≢ []
    → All IsKey keys
    → env (lit "GATEWAY_API_KEYS") ≡ some (join 44 keys)
    → keys_from_env env ≡ keys
unfolding keys_from_env unwrap_or join
keys_from_env-join env keys full v e =
    rw (e, unwrap_or)
      (ap (λ ks. or_dev_key (trimmed_keys ks)) (split-join 44 keys full (no_commas keys v))
        ∙ ap or_dev_key (trimmed_keys-IsKey keys v)
        ∙ or_dev_key-full keys full)

abbrev context_of : ApiKeyRegistry → Text → AuthContext
context_of registry key = record {
  api_key = key;
  user_id = lit "key_" ++ redact_key key;
  policy = registry.policy;
}

module _ (registry : ApiKeyRegistry) (header : Text) where
  authenticate_known :
      is_empty (trim header) ≡ false
      → contains registry.valid_keys (trim header) ≡ true
      → authenticate registry (some header) ≡ ok (context_of registry (trim header))
  unfolding authenticate
  authenticate_known full known = rw (full, authenticate_key) (rw (known, authenticate_key) refl)

  -- A key that is not known is refused, and so is an empty one.
  authenticate_unknown :
      contains registry.valid_keys (trim header) ≡ false
      → (message : Text) × (authenticate registry (some header) ≡ err (unauthorized message))
  unfolding authenticate
  authenticate_unknown unknown = elim (Bool-cases (is_empty (trim header))) [
    | inl empty ↦ (lit "missing x-api-key header", rw (empty, authenticate_key) refl)
    | inr full ↦
        (lit "invalid api key", rw (full, authenticate_key) (rw (unknown, authenticate_key) refl))
  ]

-- Where the environment lists some keys, with commas between them, a request whose header has one of
-- them as its value, white space at the ends left off, is authenticated with that key, and a request
-- with any other value is refused as unauthorized.
pub authenticate-decides :
    (env : Env) (keys : List Text) (header : Text)
    → keys ≢ []
    → All IsKey keys
    → env (lit "GATEWAY_API_KEYS") ≡ some (join 44 keys)
    → (In (trim header) keys
        → (context : AuthContext) × (authenticate (registry_from_env env) (some header)
            ≡ ok context)
          × (context.api_key ≡ trim header))
      × (¬ In (trim header) keys
          → (message : Text) × (authenticate (registry_from_env env) (some header)
              ≡ err (unauthorized message)))
unfolding registry_from_env
authenticate-decides env keys header full v e = (
  λ i. (
    context_of (registry_from_env env) (trim header),
    authenticate_known (registry_from_env env) header (full_of_In keys (trim header) v i)
        (known_iff.1 i),
    refl,
  ),
  λ n. elim (Bool-cases (contains (keys_from_env env) (trim header))) [
    | inl known ↦ absurd (n (known_iff.0 known))
    | inr unknown ↦ authenticate_unknown (registry_from_env env) header unknown
  ],
)
  where
    known_iff : (contains (keys_from_env env) (trim header) ≡ true) ↔ In (trim header) keys
    known_iff =
        subst (λ ks. (contains (keys_from_env env) (trim header) ≡ true) ↔ In (trim header) ks)
          (keys_from_env-join env keys full v e) (contains_iff (keys_from_env env) (trim header))
