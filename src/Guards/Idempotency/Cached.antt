-- ===== src/Guards/Idempotency/Cached.antt =====
-- tool_idempotency_cache.py: what `get` answers after any calls of the cache.

use Prim.Native.String.{◌++◌}
use multi_bot_agentic.Prelude.{
  ◌≡◌, ◌∙◌, refl, ap, String, Bool, false, Option, none, some, List, [], ◌∷◌, ◌==◌, string_eq,
  if◌then◌else◌,
}
use multi_bot_agentic.Prelude.Dict.{lookup, insert, erase, has_key, lookup-insert, lookup-erase}
use multi_bot_agentic.Exn.{Result, ok, err}
use multi_bot_agentic.Json.{Json, Payload}
use multi_bot_agentic.Guards.{require_id, with_id, mapping_of}
use multi_bot_agentic.Guards.Idempotency.{
  ToolCacheEntry, ToolCallIdempotencyCache, Hashing, with_args, make_key, entry_of, put, get,
  invalidate,
}

pub data Call : Type 0 where
  puts : String → Json → Json → String → Option String → Call
  gets : String → Json → Call
  invalidates : String → Json → Call

-- The name and the arguments of a call that is not refused.
abbrev pub identity : Result String → Result Payload → Option (String × Payload)
identity (ok name) (ok args) = some (name, args)
identity _ _ = none

unfoldable pub identity_of : String → Json → Option (String × Payload)
unfolding mapping_of
identity_of tool_name args = identity (require_id tool_name "tool_name") (mapping_of args)

module _ (h : Hashing) where
  -- A call that raises is caught.
  unfoldable pub call : Call → ToolCallIdempotencyCache → ToolCallIdempotencyCache
  unfolding put get invalidate
  call (puts tool_name args result utcnow at) q = (put h q tool_name args result utcnow at).1
  call (gets tool_name args) q = (get h q tool_name args).1
  call (invalidates tool_name args) q = (invalidate h q tool_name args).1

  -- The calls, the last one first.
  unfoldable pub calls : List Call → ToolCallIdempotencyCache → ToolCallIdempotencyCache
  unfolding call
  calls [] q = q
  calls (c ∷ before) q = call c (calls before q)

  -- The digest of the stripped name, a NUL and the arguments' canonical text.
  abbrev pub key_of : String → Payload → String
  key_of name args = h.sha256 (name ++ ("\0" ++ h.canonical args))

  -- The call is not refused, and its key is this one.
  abbrev pub concerns : Option (String × Payload) → String → Bool
  concerns none key = false
  concerns (some (name, args)) key = key_of name args == key

  -- The time that is recorded: the one that is given, unless it is missing or empty.
  abbrev pub recorded_at : String → Option String → String
  recorded_at utcnow none = utcnow
  recorded_at utcnow (some String.[]) = utcnow
  recorded_at utcnow (some (String.◌∷◌ c at)) = String.◌∷◌ c at

  abbrev pub written :
      Option (String × Payload) → Json → String → Option String → Option ToolCacheEntry
  written none result utcnow at = none
  written (some (name, args)) result utcnow at = some (record {
    cache_key = key_of name args;
    tool_name = name;
    args = args;
    result = result;
    cached_at_iso = recorded_at utcnow at;
  })

  entry_of-written :
      (name : String) (args : Payload) (result : Json) (utcnow : String) (at : Option String)
      → some (entry_of h name args result utcnow at) ≡ written (some (name, args)) result utcnow at
  unfolding entry_of make_key
  entry_of-written name args result utcnow none = refl
  entry_of-written name args result utcnow (some String.[]) = refl
  entry_of-written name args result utcnow (some (String.◌∷◌ c at)) = refl

  -- The entry of the last `put` under a key, if no `invalidate` under it has come since.
  unfoldable pub last_put : String → List Call → Option ToolCacheEntry
  unfolding identity_of
  last_put key [] = none
  last_put key (puts tool_name args result utcnow at ∷ before) =
      let earlier = last_put key before in
      if concerns (identity_of tool_name args) key
      then written (identity_of tool_name args) result utcnow at
      else earlier
  last_put key (gets tool_name args ∷ before) = last_put key before
  last_put key (invalidates tool_name args ∷ before) =
      let earlier = last_put key before in
      if concerns (identity_of tool_name args) key then none else earlier

  put-lookup :
      (r : Result String) (s : Result Payload) (q : ToolCallIdempotencyCache) (result : Json)
      (utcnow : String) (at : Option String) (key : String)
      → lookup key
          (with_id r q λ name. with_args s q λ copied. (
            ok (entry_of h name copied result utcnow at),
            insert (make_key h name copied) (entry_of h name copied result utcnow at) q,
          )).1
        ≡ (if concerns (identity r s) key
            then written (identity r s) result utcnow at
            else lookup key q)
  unfolding with_id with_args make_key
  put-lookup (err e) s q result utcnow at key = refl
  put-lookup (ok name) (err e) q result utcnow at key = refl
  put-lookup (ok name) (ok args) q result utcnow at key =
      lookup-insert (make_key h name args) key (entry_of h name args result utcnow at) q
      ∙ ap (λ o. if key_of name args == key then o else lookup key q)
          (entry_of-written name args result utcnow at)

  invalidate-lookup :
      (r : Result String) (s : Result Payload) (q : ToolCallIdempotencyCache) (key : String)
      → lookup key
          (with_id r q λ name.
            with_args s q λ copied.
              (ok (has_key (make_key h name copied) q), erase (make_key h name copied) q)).1
        ≡ (if concerns (identity r s) key then none else lookup key q)
  unfolding with_id with_args make_key
  invalidate-lookup (err e) s q key = refl
  invalidate-lookup (ok name) (err e) q key = refl
  invalidate-lookup (ok name) (ok args) q key = lookup-erase (make_key h name args) key q

  get-same :
      (r : Result String) (s : Result Payload) (q : ToolCallIdempotencyCache)
      → (with_id r q λ name. with_args s q λ copied. (ok (lookup (make_key h name copied) q), q)).1
        ≡ q
  unfolding with_id with_args
  get-same (err e) s q = refl
  get-same (ok name) (err e) q = refl
  get-same (ok name) (ok args) q = refl

  calls-last_put : (cs : List Call) (key : String) → lookup key (calls cs []) ≡ last_put key cs
  unfolding calls call last_put put get invalidate lookup identity_of
  calls-last_put [] key = refl
  calls-last_put (puts tool_name args result utcnow at ∷ before) key =
      put-lookup (require_id tool_name "tool_name") (mapping_of args) (calls before []) result
        utcnow at key
      ∙ ap
          (λ l.
            if concerns (identity_of tool_name args) key
            then written (identity_of tool_name args) result utcnow at
            else l)
          (calls-last_put before key)
  calls-last_put (gets tool_name args ∷ before) key =
      ap (lookup key)
        (get-same (require_id tool_name "tool_name") (mapping_of args) (calls before []))
      ∙ calls-last_put before key
  calls-last_put (invalidates tool_name args ∷ before) key =
      invalidate-lookup (require_id tool_name "tool_name") (mapping_of args) (calls before []) key
      ∙ ap (λ l. if concerns (identity_of tool_name args) key then none else l)
          (calls-last_put before key)

  -- After any calls on a new cache, calls that raise included, `get` for a name that is not blank and
  -- a mapping answers the entry of the last `put` under the same key, if no `invalidate` under that key
  -- has come since, and else nothing. The key is the digest of the stripped name, a NUL and the
  -- arguments' canonical text; the entry holds the key, the stripped name, the arguments and the result
  -- of that `put`, and the time that it was given, or its current time if it was given none or an
  -- empty one.
  pub get-last_put :
      (cs : List Call) (tool_name name : String) (args : Json) (copied : Payload)
      → require_id tool_name "tool_name" ≡ ok name
      → mapping_of args ≡ ok copied
      → (get h (calls cs []) tool_name args).0 ≡ ok (last_put (key_of name copied) cs)
  unfolding get with_id with_args make_key
  get-last_put cs tool_name name args copied named mapped =
      rw (named, mapped) (ap ok (calls-last_put cs (key_of name copied)))
