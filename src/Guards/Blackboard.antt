-- ===== src/Guards/Blackboard.antt =====
-- src/multi_bot_agentic/blackboard.py: a bounded board that bots share.
pub mod Sizes
use Prim.Native.String.{◌++◌, count}
use multi_bot_agentic.Prelude.{
  ℕ, ◌+◌, String, Bool, true, false, Option, none, some, [], length, ltb, leb, string_eq,
  if◌then◌else◌,
}
use multi_bot_agentic.Prelude.Text.{strip, show_nat}
use multi_bot_agentic.Prelude.Dict.{Dict, lookup, insert, erase, has_key}
use multi_bot_agentic.Exn.{Result, ok, err, value_error, raise_if, ◌>>◌}
use multi_bot_agentic.Guards.{Outcome, require_id, with_id}

pub record BlackboardEntry : Type 0 where
  pub key : String
  pub value : String
  pub writer_bot_id : Option String
  pub revision : ℕ

pub record SharedBlackboard : Type 0 where
  pub max_keys : ℕ
  pub max_value_chars : ℕ
  pub entries : Dict String BlackboardEntry

unfoldable pub init : ℕ → ℕ → Result SharedBlackboard
init max_keys max_value_chars = do
  raise_if (ltb max_keys 1) (value_error "max_keys must be >= 1")
  raise_if (ltb max_value_chars 1) (value_error "max_value_chars must be >= 1")
  ok (record { max_keys = max_keys; max_value_chars = max_value_chars; entries = [] })

unfoldable pub stored :
    SharedBlackboard
    → String
    → String
    → Option String
    → ℕ
    → Outcome SharedBlackboard BlackboardEntry
unfolding insert
stored b k text writer n =
    let entry : BlackboardEntry = record {
      key = k;
      value = text;
      writer_bot_id = writer;
      revision = n;
    } in
    (ok entry, record b { entries = insert k entry b.entries })

-- `put`, once the size of the value is checked, by the entry that is there.
unfoldable pub put_entry :
    SharedBlackboard
    → String
    → String
    → Option String
    → Option BlackboardEntry
    → Outcome SharedBlackboard BlackboardEntry
unfolding stored
put_entry b k text writer none =
    if leb b.max_keys (length b.entries)
    then (err (value_error ("max_keys exceeded (" ++ (show_nat b.max_keys ++ ")"))), b)
    else stored b k text writer 1
put_entry b k text writer (some existing) = stored b k text writer (existing.revision + 1)

unfoldable pub put_value :
    SharedBlackboard → String → String → Option String → Outcome SharedBlackboard BlackboardEntry
unfolding put_entry lookup
put_value b k text writer =
    if ltb b.max_value_chars (count text)
    then (
      err (value_error ("value exceeds max_value_chars (" ++ (show_nat b.max_value_chars ++ ")"))),
      b,
    )
    else put_entry b k text writer (lookup k b.entries)

unfoldable pub put :
    SharedBlackboard → String → String → Option String → Outcome SharedBlackboard BlackboardEntry
unfolding put_value
put b raw text writer = with_id (require_id raw "key") b λ k. put_value b k text writer

unfoldable pub get : SharedBlackboard → String → Option BlackboardEntry
unfolding strip lookup
get b raw = lookup (strip raw) b.entries

unfoldable pub delete : SharedBlackboard → String → Bool × SharedBlackboard
unfolding strip erase lookup
delete b raw =
    if has_key (strip raw) b.entries
    then (true, record b { entries = erase (strip raw) b.entries })
    else (false, b)

-- `snapshot`
abbrev pub snapshot : SharedBlackboard → Dict String BlackboardEntry
snapshot b = b.entries
