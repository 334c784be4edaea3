-- ===== src/Guards/BotVote.antt =====
-- src/multi_bot_agentic/bot_vote.py: one vote per bot, and the answer that they agree on. `lower` is
-- Python's `str.lower`.
pub mod Majority
use multi_bot_agentic.Prelude.{
  ℕ, ◌+◌, ◌*◌, String, Bool, true, false, not, Option, none, some, List, [], ◌∷◌, map, keep, length,
  ltb, leb, nat_beq, contains, ◌==◌, ◌&&◌, ◌||◌, string_eq, if◌then◌else◌,
}
use multi_bot_agentic.Prelude.Dict.{Dict, insert, get_or}
use multi_bot_agentic.Prelude.Sort.{sort_by}
use multi_bot_agentic.Prelude.Text.{strip, text_le}
use multi_bot_agentic.Exn.{Result, ok, err, value_error, raise_if, ◌>>◌}
use multi_bot_agentic.Guards.{Outcome, require_id, with_id}

-- `BotVote`
pub record Ballot : Type 0 where
  pub bot_id : String
  pub answer : String

pub record VoteConsensusResult : Type 0 where
  pub winner : Option String
  pub tally : Dict String ℕ
  pub mode : String
  pub total_votes : ℕ
  pub is_tie : Bool
  pub majority_reached : Bool

pub record BotVoteConsensusAggregator : Type 0 where
  pub mode : String
  pub ballots : Dict String String

unfoldable pub init : (String → String) → String → Result BotVoteConsensusAggregator
unfolding strip
init lower mode = do
  raise_if (not (contains (lower (strip mode)) ("majority" ∷ "plurality" ∷ [])))
      (value_error "mode must be 'majority' or 'plurality'")
  ok (record { mode = lower (strip mode); ballots = [] })

unfoldable pub add_vote :
    BotVoteConsensusAggregator → String → String → Outcome BotVoteConsensusAggregator Ballot
unfolding insert
add_vote g bot_id answer = with_id (require_id bot_id "bot_id") g λ bid.
    with_id (require_id answer "answer") g λ text. (
      ok (record { bot_id = bid; answer = text }),
      record g { ballots = insert bid text g.ballots },
    )

-- `Counter(values)`, on top of the counts so far.
unfoldable pub counter : Dict String ℕ → List String → Dict String ℕ
unfolding insert
counter d [] = d
counter d (v ∷ vs) = counter (insert v (get_or v 0 d + 1) d) vs

-- The order of the tally: `key=lambda item: (-item[1], item[0])`.
abbrev pub ranks_before : String × ℕ → String × ℕ → Bool
ranks_before (a, n) (b, m) = ltb m n || (nat_beq n m && text_le a b)

-- `aggregate` for a tally that is not empty: `top` is its first entry's count.
unfoldable pub decide_winner : String → Bool → Bool → List (String × ℕ) → Option String
decide_winner mode is_tie majority_reached [] = none
decide_winner mode is_tie majority_reached ((a, n) ∷ more) =
    if mode == "majority"
    then if majority_reached && not is_tie then some a else none
    else if is_tie
    then none
    else some a

-- The answers that have the top count.
abbrev pub leaders_of : ℕ → Dict String ℕ → List (String × ℕ)
leaders_of top tally = keep (λ e. nat_beq e.1 top) tally

-- A tally of no votes is the empty one, as for an empty set of votes.
unfoldable pub result_of : String → ℕ → Dict String ℕ → VoteConsensusResult
unfolding decide_winner
result_of mode total [] = record {
  winner = none;
  tally = [];
  mode = mode;
  total_votes = 0;
  is_tie = false;
  majority_reached = false;
}
result_of mode total ((a, top) ∷ rest) =
    let leaders = leaders_of top ((a, top) ∷ rest) in
    let is_tie = ltb 1 (length leaders) in
    let majority_reached = ltb total (top * 2) in
    record {
      winner = decide_winner mode is_tie majority_reached leaders;
      tally = (a, top) ∷ rest;
      mode = mode;
      total_votes = total;
      is_tie = is_tie;
      majority_reached = majority_reached;
    }

unfoldable pub aggregate : BotVoteConsensusAggregator → VoteConsensusResult
unfolding counter sort_by result_of
aggregate g =
    result_of g.mode (length g.ballots)
      (sort_by ranks_before (counter [] (map (λ e. e.1) g.ballots)))

unfoldable pub clear : BotVoteConsensusAggregator → BotVoteConsensusAggregator
clear g = record g { ballots = [] }

-- `votes`: sorted by the bot, of which each has one vote.
unfoldable pub votes : BotVoteConsensusAggregator → List Ballot
unfolding sort_by
votes g =
    map (λ e. record { bot_id = e.0; answer = e.1 }) (sort_by (λ d e. text_le d.0 e.0) g.ballots)
