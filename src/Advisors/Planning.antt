-- ===== src/Advisors/Planning.antt =====
-- The band advisors of src/multi_bot_agentic about planners, critics and consensus, one class each.
use multi_bot_agentic.Prelude.{List, [], ◌∷◌}
use multi_bot_agentic.Advisors.Numbers.{Numbers, decimal}
use multi_bot_agentic.Advisors.Bands.{BandClass, band_class}

module _ (n : Numbers) where
  abbrev pub consensus_participation_skew : BandClass n
  consensus_participation_skew =
      band_class n "ConsensusParticipationSkewAdvisor" "skew_ratio" (decimal 3 1) (decimal 7 1)

  abbrev pub consensus_quorum_band : BandClass n
  consensus_quorum_band =
      band_class n "ConsensusQuorumBandGuard" "shortfall_ratio" (decimal 2 1) (decimal 5 1)

  abbrev pub consensus_quorum_stall : BandClass n
  consensus_quorum_stall =
      band_class n "ConsensusQuorumStallAdvisor" "stall_ratio" (decimal 25 2) (decimal 6 1)

  abbrev pub consensus_vote_latency_skew_band : BandClass n
  consensus_vote_latency_skew_band =
      band_class n "ConsensusVoteLatencySkewBandAdvisor" "skew_ratio" (decimal 7 1) (decimal 95 2)

  abbrev pub consensus_vote_stuffing : BandClass n
  consensus_vote_stuffing =
      band_class n "ConsensusVoteStuffingBandAdvisor" "stuffing_score" (decimal 2 1) (decimal 6 1)

  abbrev pub critic_calibration_drift_band : BandClass n
  critic_calibration_drift_band =
      band_class n "CriticCalibrationDriftBandAdvisor" "drift_ratio" (decimal 2 1) (decimal 5 1)

  abbrev pub critic_collusion_band : BandClass n
  critic_collusion_band =
      band_class n "CriticCollusionBandAdvisor" "collusion_score" (decimal 2 1) (decimal 6 1)

  abbrev pub critic_disagreement_spread : BandClass n
  critic_disagreement_spread =
      band_class n "CriticDisagreementSpreadAdvisor" "disagreement_ratio" (decimal 35 2)
        (decimal 75 2)

  abbrev pub critic_fanout_skew : BandClass n
  critic_fanout_skew =
      band_class n "CriticFanoutSkewAdvisor" "skew_ratio" (decimal 25 2) (decimal 6 1)

  abbrev pub critic_latency_skew_band : BandClass n
  critic_latency_skew_band =
      band_class n "CriticLatencySkewBandAdvisor" "skew_ratio" (decimal 2 1) (decimal 5 1)

  abbrev pub critic_majority_capture_band : BandClass n
  critic_majority_capture_band =
      band_class n "CriticMajorityCaptureBandAdvisor" "capture_ratio" (decimal 25 2) (decimal 6 1)

  abbrev pub critic_quorum_hysteresis : BandClass n
  critic_quorum_hysteresis =
      band_class n "CriticQuorumHysteresisAdvisor" "hysteresis_score" (decimal 6 1) (decimal 9 1)

  abbrev pub critic_score_inflation_band : BandClass n
  critic_score_inflation_band =
      band_class n "CriticScoreInflationBandAdvisor" "inflation_ratio" (decimal 2 1) (decimal 5 1)

  abbrev pub critic_self_consistency : BandClass n
  critic_self_consistency =
      band_class n "CriticSelfConsistencyBandGuard" "disagreement_rate" (decimal 25 2) (decimal 5 1)

  abbrev pub critic_timeout_cascade : BandClass n
  critic_timeout_cascade =
      band_class n "CriticTimeoutCascadeGuard" "cascade_score" (decimal 2 1) (decimal 6 1)

  abbrev pub critic_token_budget : BandClass n
  critic_token_budget =
      band_class n "CriticTokenBudgetBandGuard" "tokens_used" (decimal 4000 0) (decimal 8000 0)

  abbrev pub plan_goal_contradiction_band : BandClass n
  plan_goal_contradiction_band =
      band_class n "PlanGoalContradictionBandAdvisor" "contradiction_score" (decimal 2 1)
        (decimal 6 1)

  abbrev pub plan_step_cycle_detector : BandClass n
  plan_step_cycle_detector =
      band_class n "PlanStepCycleDetectorGuard" "cycle_score" (decimal 2 1) (decimal 6 1)

  abbrev pub planner_context_overflow_band : BandClass n
  planner_context_overflow_band =
      band_class n "PlannerContextOverflowBandAdvisor" "overflow_ratio" (decimal 2 1) (decimal 5 1)

  abbrev pub planner_critic_oscillation_band : BandClass n
  planner_critic_oscillation_band =
      band_class n "PlannerCriticOscillationBandAdvisor" "oscillation_ratio" (decimal 2 1)
        (decimal 55 2)

  abbrev pub planner_depth_cap : BandClass n
  planner_depth_cap =
      band_class n "PlannerDepthCapAdvisor" "plan_depth" (decimal 5 0) (decimal 15 0)

  abbrev pub planner_goal_churn_band : BandClass n
  planner_goal_churn_band =
      band_class n "PlannerGoalChurnBandAdvisor" "churn_ratio" (decimal 2 1) (decimal 5 1)

  abbrev pub planner_horizon_band : BandClass n
  planner_horizon_band =
      band_class n "PlannerHorizonBandAdvisor" "horizon_steps_ratio" (decimal 6 1) (decimal 9 1)

  abbrev pub planner_replan_thrash : BandClass n
  planner_replan_thrash =
      band_class n "PlannerReplanThrashAdvisor" "replan_thrash_ratio" (decimal 6 1) (decimal 9 1)

  abbrev pub planner_step_budget_band : BandClass n
  planner_step_budget_band =
      band_class n "PlannerStepBudgetBandAdvisor" "steps_used_ratio" (decimal 6 1) (decimal 9 1)

  abbrev pub planner_tool_mismatch_band : BandClass n
  planner_tool_mismatch_band =
      band_class n "PlannerToolMismatchBandAdvisor" "mismatch_ratio" (decimal 25 2) (decimal 6 1)

  abbrev pub planner_tool_mismatch_cascade_band : BandClass n
  planner_tool_mismatch_cascade_band =
      band_class n "PlannerToolMismatchCascadeBandAdvisor" "mismatch_ratio" (decimal 7 1)
        (decimal 95 2)

  abbrev pub planning : List (BandClass n)
  planning =
      consensus_participation_skew ∷ consensus_quorum_band ∷ consensus_quorum_stall
      ∷ consensus_vote_latency_skew_band ∷ consensus_vote_stuffing ∷ critic_calibration_drift_band
      ∷ critic_collusion_band ∷ critic_disagreement_spread ∷ critic_fanout_skew
      ∷ critic_latency_skew_band ∷ critic_majority_capture_band ∷ critic_quorum_hysteresis
      ∷ critic_score_inflation_band ∷ critic_self_consistency ∷ critic_timeout_cascade
      ∷ critic_token_budget ∷ plan_goal_contradiction_band ∷ plan_step_cycle_detector
      ∷ planner_context_overflow_band ∷ planner_critic_oscillation_band ∷ planner_depth_cap
      ∷ planner_goal_churn_band ∷ planner_horizon_band ∷ planner_replan_thrash
      ∷ planner_step_budget_band ∷ planner_tool_mismatch_band ∷ planner_tool_mismatch_cascade_band
      ∷ []
