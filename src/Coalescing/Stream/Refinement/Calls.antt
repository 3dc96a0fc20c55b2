-- ===== src/Coalescing/Stream/Refinement/Calls.antt =====
-- Whole calls of src/coalescing.rs, one after the other.
use rust_llm_inference_gatew.Prelude.{
  update, update_all, update_self, ℕ, Bool, true, false, Option, none, some, ◌≡◌, refl, sym, ap,
  subst, ◌∙◌, if◌then◌else◌, Bool-cases, Option-cases, inl, inr,
}
use rust_llm_inference_gatew.Text.{Text}
use rust_llm_inference_gatew.HashMap.{HashMap, get, insert, remove}
use rust_llm_inference_gatew.Coalescing.Stream.{
  StreamItem, StreamEntry, Channels, Streams, new_entry, subscribe, publish, entry_or_new,
  join_or_create_stream, publish_entry, publish_stream_item,
}
use rust_llm_inference_gatew.Coalescing.Stream.Shared.{
  Shared, look_up, look_up_result, attach, find_entry, push_item, remove_entry,
}
use rust_llm_inference_gatew.Coalescing.Stream.Refinement.{
  join_call, publish_call, publish_found, entry_of, Represents, streams, replaced, inserted,
  removed,
}

module _ (sh : Shared) (m : HashMap StreamEntry) (v : Represents sh m) (key : Text) where
  abbrev pub Joins : Type 0
  Joins =
      (m' : HashMap StreamEntry) × (join_or_create_stream (streams m sh.channels) key
        ≡ (streams m' (join_call sh key).0.channels, (join_call sh key).1, (join_call sh key).2))
      × Represents (join_call sh key).0 m'

  Joins-held : (id : ℕ) → get sh.stream_inflight key ≡ some id → Joins
  unfolding join_call look_up look_up_result attach join_or_create_stream entry_or_new
  Joins-held id held =
      let found : get m key ≡ some (sh.entry id) = v.entries key ∙ ap (entry_of sh.entry) held in
      rw held (
        insert m key (subscribe (sh.entry id) sh.channels).0,
        rw found refl,
        replaced sh m v key id _ _ held,
      )

  Joins-free : get sh.stream_inflight key ≡ none → Joins
  unfolding join_call look_up look_up_result attach join_or_create_stream entry_or_new
  Joins-free free =
      let missing : get m key ≡ none = v.entries key ∙ ap (entry_of sh.entry) free in
      let fresh = update_self sh.entry sh.next_entry new_entry in
      rw free (
        rw fresh (
          insert m key (subscribe new_entry sh.channels).0,
          rw missing refl,
          inserted sh m v key _ _ free,
        ))

  pub join_call-refines : Joins
  join_call-refines = elim (Option-cases (get sh.stream_inflight key)) [
    | inl free ↦ Joins-free free
    | inr (id, held) ↦ Joins-held id held
  ]

  abbrev pub Publishes : StreamItem → Type 0
  Publishes item =
      (m' : HashMap StreamEntry) × (publish_stream_item (streams m sh.channels) key item
        ≡ streams m' (publish_call sh key item).channels)
      × Represents (publish_call sh key item) m'

  -- An entry that is done stays as it is.
  untouched :
      (id : ℕ) (c : Channels)
      → Represents (record sh { entry = update sh.entry id (sh.entry id); channels = c }) m
  untouched id c = record {
    entries = λ k. v.entries k ∙ same_entry (get sh.stream_inflight k);
    made = v.made;
    apart = v.apart;
  }
    where
      same_entry :
          (o : Option ℕ) → entry_of sh.entry o ≡ entry_of (update sh.entry id (sh.entry id)) o
      same_entry none = refl
      same_entry (some j) = ap some (
          update_all sh.entry id (sh.entry id) (λ i x. sh.entry i ≡ x) j (λ same. refl)
            (λ other. refl))

  module _ (item : StreamItem) (id : ℕ) (held : get sh.stream_inflight key ≡ some id) where
    abbrev published : StreamEntry × Channels
    published = publish item (sh.entry id) sh.channels

    found : get m key ≡ some (sh.entry id)
    found = v.entries key ∙ ap (entry_of sh.entry) held

    -- The two states after the lock of the entry, by whether it was done and what is left of it.
    after_lock : Bool → StreamEntry × Channels → Shared
    after_lock over p =
        let pushed = record sh { entry = update sh.entry id p.0; channels = p.1 } in
        if if over then false else p.0.done then remove_entry pushed key else pushed

    after_entry : Bool → StreamEntry × Channels → Streams
    after_entry over p = if over then streams m sh.channels else record {
      stream_inflight = if p.0.done then remove m key else insert m key p.0;
      channels = p.1;
    }

    after_lock-Represents :
        (over : Bool) (p : StreamEntry × Channels)
        → (over ≡ true → p ≡ (sh.entry id, sh.channels))
        → (m' : HashMap StreamEntry) × (after_entry over p
            ≡ streams m' (after_lock over p).channels)
          × Represents (after_lock over p) m'
    unfolding after_lock after_entry remove_entry
    after_lock-Represents true p same = rw (same refl) (m, refl, untouched id sh.channels)
    after_lock-Represents false p same = elim (Bool-cases p.0.done) [
      | inl last ↦ simp last (remove m key, refl, removed sh m v key id p.0 p.1 held)
      | inr more ↦ simp more (insert m key p.0, refl, replaced sh m v key id p.0 p.1 held)
    ]

    published_over : (sh.entry id).done ≡ true → published ≡ (sh.entry id, sh.channels)
    unfolding publish
    published_over over = simp over refl

    publish_call_held : publish_call sh key item ≡ after_lock (sh.entry id).done published
    unfolding publish_call publish_found find_entry push_item after_lock
    publish_call_held = ap (publish_found sh key item) held

    publish_stream_item_held :
        publish_stream_item (streams m sh.channels) key item
        ≡ after_entry (sh.entry id).done published
    unfolding publish_stream_item publish_entry after_entry
    publish_stream_item_held = ap (publish_entry (streams m sh.channels) key item) found

    Publishes-held : Publishes item
    Publishes-held =
        let (m', same, represented) =
          after_lock-Represents (sh.entry id).done published published_over in
        (
          m',
          publish_stream_item_held
              ∙ same
              ∙ ap (λ (s : Shared). streams m' s.channels) (sym publish_call_held),
          subst (λ s. Represents s m') (sym publish_call_held) represented,
        )

  pub publish_call-refines : (item : StreamItem) → Publishes item
  unfolding publish_call publish_found find_entry publish_stream_item publish_entry
  publish_call-refines item = elim (Option-cases (get sh.stream_inflight key)) [
    | inl free ↦
        let missing : get m key ≡ none = v.entries key ∙ ap (entry_of sh.entry) free in
        rw free (m, rw missing refl, v)
    | inr (id, held) ↦ Publishes-held item id held
  ]
