-- ===== src/Advisors/Severity.antt =====
-- What the band that an advisor answers says of the observation.
use multi_bot_agentic.Prelude.{ℕ, ◌≤◌, ◌≡◌, ◌≢◌, ◌↔◌, ◌⊎◌, String, true, false, some, arith}
use multi_bot_agentic.Prelude.Text.{strip, is_empty}
use multi_bot_agentic.Exn.{Result, ok, err}
use multi_bot_agentic.Advisors.Numbers.{Numbers, Decimal, decimal}
use multi_bot_agentic.Advisors.Bands.{
  Band, within, elevated, blocked, Limits, BandStatus, init_limits, band_of, advise_band,
  band_class,
}

abbrev pub severity : Band → ℕ
severity within = 0
severity elevated = 1
severity blocked = 2

module _ (n : Numbers) where
  open n use {Number, le, lt, literal, nan, le_trans, lt_le, lt_not_le, nan_le, le_nan, le_literal}

  abbrev pub zero_number : Number
  zero_number = literal (decimal 0 0)

  -- The bands are the three ranges that the limits bound.
  abbrev pub Bounded : Limits n → Number → Band → Type 0
  Bounded limits x b =
      ((b ≡ within) ↔ (le x limits.soft ≡ true)) × ((b ≡ blocked) ↔ (le x limits.hard ≡ false))

  -- The answer to a call: a status of this session and observation, or the refusal of a blank
  -- session or a negative observation.
  abbrev pub Answers : Limits n → String → Number → Result (BandStatus n) → Type 0
  Answers limits session x (ok s) =
      (is_empty (strip session) ≡ false)
      × (lt x zero_number ≡ false)
      × (s.session_id ≡ strip session)
      × (s.observed ≡ x)
      × (s.requires_human_review ≡ true)
      × Bounded limits x s.band
  Answers limits session x (err e) = (is_empty (strip session) ≡ true) ⊎ (lt x zero_number ≡ true)

  band_of-Bounded :
      (limits : Limits n) (x : Number)
      → le limits.soft limits.hard ≡ true
      → Bounded limits x (band_of n limits x)
  unfolding band_of
  band_of-Bounded limits x h = ground (arith, le_trans x limits.soft limits.hard)

  pub advise_band-Answers :
      (observed : String) (limits : Limits n) (session : String) (x : Number)
      → le limits.soft limits.hard ≡ true
      → Answers limits session x (advise_band n observed limits session x)
  unfolding advise_band
  advise_band-Answers observed limits session x h = ground (arith, band_of-Bounded limits x h)

  band_of-monotone :
      (limits : Limits n) (x y : Number)
      → le x y ≡ true
      → severity (band_of n limits x) ≤ severity (band_of n limits y)
  unfolding band_of
  band_of-monotone limits x y h = ground (arith, le_trans x y limits.soft, le_trans x y limits.hard)

  band_of-advise_band :
      (observed : String) (limits : Limits n) (session : String) (x : Number) (s : BandStatus n)
      → advise_band n observed limits session x ≡ ok s
      → s.band ≡ band_of n limits x
  unfolding advise_band
  band_of-advise_band observed limits session x s h = ground arith

  -- Of two observations that one advisor answers, with any limits, the larger one never gets the
  -- milder band.
  pub advise-severity :
      (name observed : String) (soft_default hard_default : Decimal) (limits : Limits n)
      (session : String) (x y : Number) (s t : BandStatus n)
      → le x y ≡ true
      → (band_class n name observed soft_default hard_default).advise limits session x ≡ ok s
      → (band_class n name observed soft_default hard_default).advise limits session y ≡ ok t
      → severity s.band ≤ severity t.band
  unfolding band_class
  advise-severity name observed soft_default hard_default limits session x y s t h p q =
      rw (band_of-advise_band observed limits session x s p)
        (rw (band_of-advise_band observed limits session y t q) (band_of-monotone limits x y h))

  -- A soft limit that is not a number is accepted by the constructor of every band advisor, with any
  -- hard limit, and the advisor that it makes gives no observation the band `within`.
  pub init-nan :
      (name observed : String) (soft_default hard_default : Decimal) (hard : Number)
      (session : String) (x : Number) (s : BandStatus n)
      → (band_class n name observed soft_default hard_default).advise
          (record { soft = nan; hard = hard })
          session
          x
        ≡ ok s
      → ((band_class n name observed soft_default hard_default).init (some nan) (some hard)
          ≡ ok (record { soft = nan; hard = hard }))
        × (s.band ≢ within)
  unfolding band_class init_limits band_of
  init-nan name observed soft_default hard_default hard session x s h =
      let limits : Limits n = record { soft = nan; hard = hard } in
      (
        ground (arith, nan_le zero_number, le_nan hard),
        rw (band_of-advise_band observed limits session x s h) (ground (arith, le_nan x)),
      )
