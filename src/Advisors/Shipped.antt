-- ===== src/Advisors/Shipped.antt =====
-- The classes as the modules ship them, with their default limits.
use multi_bot_agentic.Prelude.{
  ◌≡◌, String, Bool, true, none, List, [], ◌∷◌, ◌++◌, leb, ltb, ◌&&◌, All, All-append, arith, not,
}
use multi_bot_agentic.Exn.{ok}
use multi_bot_agentic.Advisors.Numbers.{Numbers, Decimal, decimal, thousandths, IsShort}
use multi_bot_agentic.Advisors.Bands.{Limits, BandClass, init_limits, band_class}
use multi_bot_agentic.Advisors.Severity.{Answers, advise_band-Answers}
use multi_bot_agentic.Advisors.Orchestration.{orchestration}
use multi_bot_agentic.Advisors.Planning.{planning}
use multi_bot_agentic.Advisors.SharedState.{shared_state}
use multi_bot_agentic.Advisors.Tooling.{tooling}

-- Literals of few digits, 0 < soft and soft < hard.
abbrev pub are_proper : Decimal → Decimal → Bool
are_proper soft hard =
    leb soft.places 3
    && leb hard.places 3
    && ltb soft.digits 1000000
    && ltb hard.digits 1000000
    && not (leb (thousandths soft) 0)
    && not (leb (thousandths hard) (thousandths soft))

module _ (n : Numbers) where
  open n use {Number, le, lt, literal, le_literal}

  abbrev pub shipped : List (BandClass n)
  shipped = orchestration n ++ (planning n ++ (shared_state n ++ tooling n))

  abbrev limits_of : Decimal → Decimal → Limits n
  limits_of soft hard = record { soft = literal soft; hard = literal hard }

  -- A class that can be built with its defaults, and then answers every call as specified.
  abbrev pub Serves : String → Number → BandClass n → Type 0
  Serves session x c =
      (limits : Limits n) × (c.init none none ≡ ok limits)
      × Answers n limits session x (c.advise limits session x)

  init_limits-ok :
      (soft hard : Decimal)
      → are_proper soft hard ≡ true
      → (init_limits n (literal soft) (literal hard) ≡ ok (limits_of soft hard))
        × (le (literal soft) (literal hard) ≡ true)
  unfolding init_limits
  init_limits-ok soft hard h =
      let soft-IsShort : IsShort soft = ground arith in
      let hard-IsShort : IsShort hard = ground arith in
      let zero-IsShort : IsShort (decimal 0 0) = ground arith in
      ground (
        arith,
        le_literal soft (decimal 0 0) soft-IsShort zero-IsShort,
        le_literal hard soft hard-IsShort soft-IsShort,
        le_literal soft hard soft-IsShort hard-IsShort,
      )

  band_class-Serves :
      (name observed : String) (soft hard : Decimal) (session : String) (x : Number)
      → are_proper soft hard ≡ true
      → Serves session x (band_class n name observed soft hard)
  unfolding band_class
  band_class-Serves name observed soft hard session x h =
      let (built, ordered) = init_limits-ok soft hard h in
      (
        limits_of soft hard,
        built,
        advise_band-Answers n observed (limits_of soft hard) session x ordered,
      )

  -- Every class is a band class with proper default limits.
  data AreBands : List (BandClass n) → Type 0 where
    done : AreBands []
    band :
        (name observed : String) (soft hard : Decimal) (cs : List (BandClass n))
        → are_proper soft hard ≡ true
        → AreBands cs
        → AreBands (band_class n name observed soft hard ∷ cs)

  AreBands-Serves :
      {cs : List (BandClass n)} (session : String) (x : Number)
      → AreBands cs
      → All (Serves session x) cs
  AreBands-Serves session x done = tt
  AreBands-Serves session x (band name observed soft hard cs h r) =
      (band_class-Serves name observed soft hard session x h, AreBands-Serves session x r)

  orchestration-AreBands : AreBands (orchestration n)
  orchestration-AreBands = search (done, band) depth 45

  shared_state-AreBands : AreBands (shared_state n)
  shared_state-AreBands = search (done, band) depth 45

  planning-AreBands : AreBands (planning n)
  planning-AreBands = search (done, band) depth 45

  tooling-AreBands : AreBands (tooling n)
  tooling-AreBands = search (done, band) depth 45

  -- Each class that is shipped can be built with its default limits, and then answers every
  -- session and observation, a number or not: a blank session and a negative observation are
  -- refused and nothing else is; an answer names the stripped session and the observation, asks for
  -- a human review, and its band is `within` exactly where the observation is at most the soft limit
  -- and `blocked` exactly where it is not at most the hard limit.
  pub shipped-Serves : (session : String) (x : Number) → All (Serves session x) shipped
  shipped-Serves session x =
      All-append (Serves session x) (orchestration n) (planning n ++ (shared_state n ++ tooling n))
        (AreBands-Serves session x orchestration-AreBands)
        (All-append (Serves session x) (planning n) (shared_state n ++ tooling n)
          (AreBands-Serves session x planning-AreBands)
          (All-append (Serves session x) (shared_state n) (tooling n)
            (AreBands-Serves session x shared_state-AreBands)
            (AreBands-Serves session x tooling-AreBands)))
