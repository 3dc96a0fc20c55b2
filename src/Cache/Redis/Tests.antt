-- ===== src/Cache/Redis/Tests.antt =====
-- The Redis backend of the cache over one key that is kept for good, with a codec of contents.
use rust_llm_inference_gatew.Prelude.{
  ℕ, zero, suc, ◌+◌, ◌*◌, ◌^◌, ◌≡◌, refl, ap, ◌∙◌, true, Option, none, some, [], ◌∷◌, ◌++◌, length,
  ltb, if◌then◌else◌, arith,
}
use rust_llm_inference_gatew.Text.{Text, lit}
use rust_llm_inference_gatew.HashMap.{HashMap, get, insert, get-insert, get-insert_self}
use rust_llm_inference_gatew.Models.{BackendChatResponse}
use rust_llm_inference_gatew.Cache.{CacheConfig}
use rust_llm_inference_gatew.Cache.Interface.{IsCache}
use rust_llm_inference_gatew.Cache.Redis.{
  RedisStore, Codec, IsStore, IsCodec, as_secs, redis, redis-IsCache,
}

-- A Redis whose entries carry the instant at which they expire.
abbrev live : ℕ → Option (Text × ℕ) → Option Text
live now none = none
live now (some (value, until)) = if ltb now until then some value else none

abbrev store : RedisStore
store = record {
  State = HashMap (Text × ℕ);
  connected = λ now s. true;
  get = λ now s key. some (live now (get s key));
  set_ex = λ now s key value secs. insert s key (value, now + secs * 10 ^ 9);
}

store-IsStore : IsStore store
store-IsStore = record {
  reachable = λ now s. refl;
  get-set_ex = λ at now s key value secs positive early.
      ap (λ e. some (live now e)) (get-insert_self s key (value, at + secs * 10 ^ 9))
      ∙ ground arith;
  get-set_ex_late = λ at now s key value secs positive late.
      ap (λ e. some (live now e)) (get-insert_self s key (value, at + secs * 10 ^ 9))
      ∙ ground arith;
  get-set_ex_other = λ at now s key j value secs other.
      ap (λ e. some (live now e)) (get-insert s key j (value, at + secs * 10 ^ 9) ∙ rw other refl);
}

-- A codec that writes the length of the content before it.
abbrev split_at : ℕ → Text → Text × Text
split_at zero s = ([], s)
split_at (suc n) [] = ([], [])
split_at (suc n) (c ∷ s) = let (front, back) = split_at n s in (c ∷ front, back)

split_at-append : (s t : Text) → split_at (length s) (s ++ t) ≡ (s, t)
split_at-append [] t = refl
split_at-append (c ∷ s) t = rw (split_at-append s t) refl

abbrev write : BackendChatResponse → Option Text
write r = some (
    r.usage.prompt_tokens
    ∷ r.usage.completion_tokens
    ∷ r.usage.total_tokens
    ∷ length r.content
    ∷ (r.content ++ r.finish_reason))

abbrev read : Text → Option BackendChatResponse
read (prompt ∷ completion ∷ total ∷ size ∷ s) =
    let (content, finish_reason) = split_at size s in
    some (record {
      content = content;
      finish_reason = finish_reason;
      usage = record {
        prompt_tokens = prompt;
        completion_tokens = completion;
        total_tokens = total;
      };
    })
read s = none

abbrev codec : Codec
codec = record { to_string = write; from_str = read }

codec-IsCodec : IsCodec codec
codec-IsCodec = record {
  from_str-to_string = λ r. (_, refl, rw (split_at-append r.content r.finish_reason) refl);
}

abbrev config : CacheConfig
config = record { ttl = 90 * 10 ^ 9 }

redis-IsCache_example : IsCache (redis store codec config (lit "gateway"))
unfolding as_secs
redis-IsCache_example =
    redis-IsCache store codec config (lit "gateway") store-IsStore codec-IsCodec (omega arith)
