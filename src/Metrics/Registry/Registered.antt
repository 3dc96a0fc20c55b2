-- ===== src/Metrics/Registry/Registered.antt =====
-- `AppMetrics::new` of src/metrics.rs does not panic.
use rust_llm_inference_gatew.Prelude.{
  ℕ, Bool, true, false, ◌&&◌, ◌||◌, not, ok, List, [], ◌∷◌, ◌≡◌, refl, ◌∙◌, ◌==◌, leb,
}
use rust_llm_inference_gatew.Text.{Text, lit, text_eq}
use rust_llm_inference_gatew.Metrics.Registry.{
  Library, Opts, AppMetrics, new_app_metrics, counter_of, request_total_opts, request_duration_opts,
  inflight_opts, backend_errors_opts, tokens_opts,
}

is_letter : ℕ → Bool
is_letter c = (leb 97 c && leb c 122) || (leb 65 c && leb c 90) || c == 95

all_name_chars : Text → Bool
unfolding is_letter
all_name_chars [] = true
all_name_chars (c ∷ t) = (is_letter c || (leb 48 c && leb c 57)) && all_name_chars t

-- `[a-zA-Z_][a-zA-Z0-9_]*`, which the library takes for labels and, with colons besides, for metrics.
is_name : Text → Bool
unfolding is_letter all_name_chars
is_name [] = false
is_name (c ∷ t) = is_letter c && all_name_chars t

pub is_member : Text → List Text → Bool
is_member s [] = false
is_member s (t ∷ ts) = text_eq s t || is_member s ts

-- Labels are names, distinct, and not the histograms' own `le`.
are_labels : List Text → Bool
unfolding is_name is_member
are_labels [] = true
are_labels (l ∷ ls) =
    is_name l && not (is_member l ls) && not (text_eq l (lit "le")) && are_labels ls

is_empty : Text → Bool
is_empty [] = true
is_empty (c ∷ t) = false

pub is_valid : Opts → Bool
unfolding is_name are_labels is_empty
is_valid o = is_name o.name && not (is_empty o.help) && are_labels o.labels

-- The documented behaviour of the library: a valid description makes a metric of its name, and a
-- registry takes every metric whose name it has not yet.
pub record IsLibrary (L : Library) : Type 0 where
  pub name_of : L.Metric → Text
  pub names : L.Registry → List Text
  pub names-new_registry : names L.new_registry ≡ []
  pub int_counter_vec-valid :
      (o : Opts)
      → is_valid o ≡ true
      → (m : L.Metric) × (L.int_counter_vec o.name o.help o.labels ≡ ok m) × (name_of m ≡ o.name)
  pub histogram_vec-valid :
      (o : Opts)
      → is_valid o ≡ true
      → (m : L.Metric) × (L.histogram_vec o.name o.help o.labels ≡ ok m) × (name_of m ≡ o.name)
  pub int_gauge-valid :
      (o : Opts)
      → is_valid o ≡ true
      → (m : L.Metric) × (L.int_gauge o.name o.help ≡ ok m) × (name_of m ≡ o.name)
  pub register-fresh :
      (r : L.Registry) (m : L.Metric)
      → is_member (name_of m) (names r) ≡ false
      → (r' : L.Registry) × (L.register r m ≡ ok r') × (names r' ≡ name_of m ∷ names r)

valid_opts :
    (is_valid request_total_opts ≡ true)
    × (is_valid request_duration_opts ≡ true)
    × (is_valid inflight_opts ≡ true)
    × (is_valid backend_errors_opts ≡ true)
    × (is_valid tokens_opts ≡ true)
unfolding is_valid lit text_eq
valid_opts = (refl, refl, refl, refl, refl)

module _ (L : Library) (v : IsLibrary L) where
  -- The names of the metrics in the fields of the gateway, and of those in its registry.
  abbrev pub IsRegistered : AppMetrics L → Type 0
  IsRegistered m =
      (v.name_of m.request_total ≡ lit "gateway_http_requests_total")
      × (v.name_of m.request_duration_seconds ≡ lit "gateway_http_request_duration_seconds")
      × (v.name_of m.inflight_requests ≡ lit "gateway_inflight_requests")
      × (v.name_of m.backend_errors_total ≡ lit "gateway_backend_errors_total")
      × (v.name_of m.tokens_total ≡ lit "gateway_tokens_total")
      × (v.names m.registry
          ≡ v.name_of m.tokens_total
            ∷ v.name_of m.backend_errors_total
            ∷ v.name_of m.inflight_requests
            ∷ v.name_of m.request_duration_seconds
            ∷ v.name_of m.request_total
            ∷ [])

  -- Registering a metric of a fresh name.
  registers :
      (r : L.Registry) (m : L.Metric) (name : Text) (old : List Text)
      → v.names r ≡ old
      → v.name_of m ≡ name
      → is_member name old ≡ false
      → (r' : L.Registry) × (L.register r m ≡ ok r') × (v.names r' ≡ name ∷ old)
  registers r m name old e n fresh =
      let (r', made, names) = v.register-fresh r m (rw (e, n) fresh) in
      (r', made, names ∙ rw (e, n) refl)

  -- At the start of the gateway every metric is made and registered, and nothing panics.
  pub new_app_metrics-IsRegistered :
      (m : AppMetrics L) × (new_app_metrics L ≡ ok m) × IsRegistered m
  unfolding new_app_metrics counter_of is_member lit text_eq
  new_app_metrics-IsRegistered =
      let (rt, e1, n1) = v.int_counter_vec-valid request_total_opts valid_opts.0 in
      let (rd, e2, n2) = v.histogram_vec-valid request_duration_opts valid_opts.1 in
      let (ir, e3, n3) = v.int_gauge-valid inflight_opts valid_opts.2 in
      let (be, e4, n4) = v.int_counter_vec-valid backend_errors_opts valid_opts.3 in
      let (tk, e5, n5) = v.int_counter_vec-valid tokens_opts valid_opts.4 in
      let (r1, f1, g1) = registers L.new_registry rt _ _ v.names-new_registry n1 refl in
      let (r2, f2, g2) = registers r1 rd _ _ g1 n2 refl in
      let (r3, f3, g3) = registers r2 ir _ _ g2 n3 refl in
      let (r4, f4, g4) = registers r3 be _ _ g3 n4 refl in
      let (r5, f5, g5) = registers r4 tk _ _ g4 n5 refl in
      (
        record {
          registry = r5;
          request_total = rt;
          request_duration_seconds = rd;
          inflight_requests = ir;
          backend_errors_total = be;
          tokens_total = tk;
        },
        simp (e1, e2, e3, e4, e5, f1, f2, f3, f4, f5) refl,
        (n1, n2, n3, n4, n5, rw (n1, n2, n3, n4, n5) g5),
      )
