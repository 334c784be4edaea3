-- ===== src/Guards/Barrier.antt =====
-- src/multi_bot_agentic/fanin_barrier.py: a barrier that waits for the results of enough bots.
pub mod Gathered
use multi_bot_agentic.Prelude.{
  ℕ, ◌+◌, String, Bool, true, false, ◌||◌, not, List, [], ◌∷◌, length, ltb, leb, contains, ◌==◌,
  string_eq, if◌then◌else◌,
}
use multi_bot_agentic.Prelude.Dict.{Dict, insert, erase, get_or}
use multi_bot_agentic.Prelude.Sets.{add_member}
use multi_bot_agentic.Prelude.Sort.{sort_by}
use multi_bot_agentic.Prelude.Text.{text_le}
use multi_bot_agentic.Exn.{Result, ok, err, value_error, raise_if, ◌>>◌}
use multi_bot_agentic.Guards.{Outcome, require_id, with_id}

pub record FanInBarrierStatus : Type 0 where
  pub barrier_id : String
  pub required : ℕ
  pub arrived : List String
  pub count : ℕ
  pub released : Bool
  pub mode : String
  pub allowed : Bool

-- A set is the list of its members.
pub record FanInBarrierGate : Type 0 where
  pub required : ℕ
  pub mode : String
  pub arrived : Dict String (List String)

unfoldable pub init : ℕ → String → Result FanInBarrierGate
init required mode = do
  raise_if (ltb required 1) (value_error "required must be >= 1")
  raise_if (not (contains mode ("advisory" ∷ "hard" ∷ [])))
      (value_error "mode must be 'advisory' or 'hard'")
  ok (record { required = required; mode = mode; arrived = [] })

-- `status`, after the check of the identifier.
unfoldable pub status_of : FanInBarrierGate → String → FanInBarrierStatus
unfolding sort_by
status_of g bid =
    let arrived = sort_by text_le (get_or bid [] g.arrived) in
    let released = leb g.required (length arrived) in
    record {
      barrier_id = bid;
      required = g.required;
      arrived = arrived;
      count = length arrived;
      released = released;
      mode = g.mode;
      allowed = released || g.mode == "advisory";
    }

unfoldable pub status : FanInBarrierGate → String → Outcome FanInBarrierGate FanInBarrierStatus
unfolding status_of
status g barrier_id =
    with_id (require_id barrier_id "barrier_id") g λ bid. (ok (status_of g bid), g)

-- The gate after a bot has arrived.
unfoldable pub add_arrival : FanInBarrierGate → String → String → FanInBarrierGate
unfolding insert add_member
add_arrival g bid bot = record g {
  arrived = insert bid (add_member bot (get_or bid [] g.arrived)) g.arrived;
}

unfoldable pub arrive :
    FanInBarrierGate → String → String → Outcome FanInBarrierGate FanInBarrierStatus
unfolding add_arrival status
arrive g barrier_id bot_id =
    with_id (require_id barrier_id "barrier_id") g
      λ bid. with_id (require_id bot_id "bot_id") g λ bot. status (add_arrival g bid bot) bid

unfoldable pub reset : FanInBarrierGate → String → Outcome FanInBarrierGate (Unit {0})
unfolding erase
reset g barrier_id =
    with_id (require_id barrier_id "barrier_id") g
      λ bid. (ok tt, record g { arrived = erase bid g.arrived })
