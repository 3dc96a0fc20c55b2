-- ===== src/Metrics/Registry/Tests.antt =====
-- The metrics of src/metrics.rs in a library whose metrics are their names, and whose registry is the
-- list of them.
use rust_llm_inference_gatew.Prelude.{false, ok, err, List, [], ◌∷◌, ◌≡◌, refl, if◌then◌else◌}
use rust_llm_inference_gatew.Text.{Text}
use rust_llm_inference_gatew.Metrics.Registry.{Library, AppMetrics, new_app_metrics}
use rust_llm_inference_gatew.Metrics.Registry.Registered.{
  IsLibrary, IsRegistered, is_member, new_app_metrics-IsRegistered,
}

abbrev by_name : Library
by_name = record {
  Metric = Text;
  Registry = List Text;
  new_registry = [];
  int_counter_vec = λ name help labels. ok name;
  histogram_vec = λ name help labels. ok name;
  int_gauge = λ name help. ok name;
  register = λ r m. if is_member m r then err m else ok (m ∷ r);
  encode = λ r. ok [];
}

abbrev registers_fresh :
    (r : List Text) (m : Text)
    → is_member m r ≡ false
    → (r' : List Text) × (by_name.register r m ≡ ok r') × (r' ≡ m ∷ r)
registers_fresh r m fresh = (m ∷ r, simp fresh refl, refl)

abbrev by_name-IsLibrary : IsLibrary by_name
by_name-IsLibrary = record {
  name_of = λ m. m;
  names = λ r. r;
  names-new_registry = refl;
  int_counter_vec-valid = λ o h. (o.name, refl, refl);
  histogram_vec-valid = λ o h. (o.name, refl, refl);
  int_gauge-valid = λ o h. (o.name, refl, refl);
  register-fresh = registers_fresh;
}

new_app_metrics-IsRegistered_example :
    (m : AppMetrics by_name) × (new_app_metrics by_name ≡ ok m)
    × IsRegistered by_name by_name-IsLibrary m
new_app_metrics-IsRegistered_example = new_app_metrics-IsRegistered by_name by_name-IsLibrary
