-- ===== src/Advisors/Bands.antt =====
-- The one text that the band advisors share, such as planner_step_budget_band.py: the limits that
-- `__init__` checks, and the method that is called `advise` in most classes and `check` in the others.
use Prim.Native.String.{◌++◌}
use multi_bot_agentic.Prelude.{String, Bool, true, Option, none, some, if◌then◌else◌}
use multi_bot_agentic.Prelude.Text.{strip, is_empty}
use multi_bot_agentic.Exn.{Result, ok, value_error, raise_if, ◌>>◌}
use multi_bot_agentic.Advisors.Numbers.{Numbers, Decimal, decimal}

-- The texts "ok", "elevated" and "blocked".
pub data Band : Type 0 where
  within elevated blocked : Band

module _ (n : Numbers) where
  open n use {Number, le, lt, literal}

  -- The object: `_soft` and `_hard`.
  pub record Limits : Type 0 where
    pub soft : Number
    pub hard : Number

  pub record BandStatus : Type 0 where
    pub session_id : String
    pub observed : Number
    pub soft_limit : Number
    pub hard_limit : Number
    pub band : Band
    pub requires_human_review : Bool

  -- A class: its name, its constructor, whose keyword arguments may be left out, and its method.
  pub record BandClass : Type 0 where
    pub name : String
    pub init : Option Number → Option Number → Result Limits
    pub advise : Limits → String → Number → Result BandStatus

  -- A keyword argument or its default.
  abbrev pub given : Option Number → Decimal → Number
  given none default = literal default
  given (some x) default = x

  unfoldable pub init_limits : Number → Number → Result Limits
  init_limits soft hard = do
    raise_if (le soft (literal (decimal 0 0))) (value_error "soft_limit must be > 0")
    raise_if (le hard soft) (value_error "hard_limit must be > soft_limit")
    ok (record { soft = soft; hard = hard })

  unfoldable pub band_of : Limits → Number → Band
  band_of limits x =
      if le x limits.soft then within else if le x limits.hard then elevated else blocked

  unfoldable pub advise_band : String → Limits → String → Number → Result BandStatus
  unfolding band_of strip
  advise_band observed limits session_id x = do
    let id = strip session_id
    raise_if (is_empty id) (value_error "session_id must be non-empty")
    raise_if (lt x (literal (decimal 0 0))) (value_error (observed ++ " must be >= 0"))
    ok (record {
      session_id = id;
      observed = x;
      soft_limit = limits.soft;
      hard_limit = limits.hard;
      band = band_of limits x;
      requires_human_review = true;
    })

  -- The class of a module: its name, the keyword of its observation, and the default limits.
  unfoldable pub band_class : String → String → Decimal → Decimal → BandClass
  unfolding init_limits advise_band
  band_class name observed soft_default hard_default = record {
    name = name;
    init = λ soft hard. init_limits (given soft soft_default) (given hard hard_default);
    advise = advise_band observed;
  }
