-- ===== src/Advisors/Orchestration.antt =====
-- The band advisors of src/multi_bot_agentic about agents, workers, messages and the orchestrator, one class each.
use multi_bot_agentic.Prelude.{List, [], ◌∷◌}
use multi_bot_agentic.Advisors.Numbers.{Numbers, decimal}
use multi_bot_agentic.Advisors.Bands.{BandClass, band_class}

module _ (n : Numbers) where
  abbrev pub actor_mailbox_overflow : BandClass n
  actor_mailbox_overflow =
      band_class n "ActorMailboxOverflowAdvisor" "mailbox_depth_ratio" (decimal 25 2) (decimal 6 1)

  abbrev pub agent_affinity_decay_band : BandClass n
  agent_affinity_decay_band =
      band_class n "AgentAffinityDecayBandAdvisor" "decay_ratio" (decimal 2 1) (decimal 5 1)

  abbrev pub agent_affinity_skew_band : BandClass n
  agent_affinity_skew_band =
      band_class n "AgentAffinitySkewBandAdvisor" "skew_ratio" (decimal 2 1) (decimal 5 1)

  abbrev pub agent_capability_revocation : BandClass n
  agent_capability_revocation =
      band_class n "AgentCapabilityRevocationBandAdvisor" "revocation_score" (decimal 2 1)
        (decimal 6 1)

  abbrev pub agent_deadlock_detector : BandClass n
  agent_deadlock_detector =
      band_class n "AgentDeadlockDetectorGuard" "deadlock_score" (decimal 2 1) (decimal 6 1)

  abbrev pub agent_handoff_loop_band : BandClass n
  agent_handoff_loop_band =
      band_class n "AgentHandoffLoopBandAdvisor" "loop_ratio" (decimal 25 2) (decimal 6 1)

  abbrev pub agent_loop_token_bleed : BandClass n
  agent_loop_token_bleed =
      band_class n "AgentLoopTokenBleedAdvisor" "token_bleed_ratio" (decimal 25 2) (decimal 6 1)

  abbrev pub agent_memory_poison_band : BandClass n
  agent_memory_poison_band =
      band_class n "AgentMemoryPoisonBandAdvisor" "poison_ratio" (decimal 2 1) (decimal 5 1)

  abbrev pub agent_token_budget_skew_band : BandClass n
  agent_token_budget_skew_band =
      band_class n "AgentTokenBudgetSkewBandAdvisor" "skew_ratio" (decimal 2 1) (decimal 5 1)

  abbrev pub bot_capability_drift : BandClass n
  bot_capability_drift =
      band_class n "BotCapabilityDriftAdvisor" "drift_ratio" (decimal 3 1) (decimal 7 1)

  abbrev pub fan_in_barrier_stall : BandClass n
  fan_in_barrier_stall =
      band_class n "FanInBarrierStallAdvisor" "stall_ratio" (decimal 25 2) (decimal 6 1)

  abbrev pub handoff_payload_bloat : BandClass n
  handoff_payload_bloat =
      band_class n "HandoffPayloadBloatAdvisor" "payload_bloat_ratio" (decimal 25 2) (decimal 6 1)

  abbrev pub handoff_schema_drift_band : BandClass n
  handoff_schema_drift_band =
      band_class n "HandoffSchemaDriftBandAdvisor" "drift_ratio" (decimal 2 1) (decimal 5 1)

  abbrev pub handoff_timeout_band : BandClass n
  handoff_timeout_band =
      band_class n "HandoffTimeoutBandAdvisor" "timeout_ratio" (decimal 25 2) (decimal 6 1)

  abbrev pub hitl_approval_starvation_band : BandClass n
  hitl_approval_starvation_band =
      band_class n "HitlApprovalStarvationBandAdvisor" "starvation_ratio" (decimal 2 1)
        (decimal 5 1)

  abbrev pub hitl_timeout_cascade_band : BandClass n
  hitl_timeout_cascade_band =
      band_class n "HitlTimeoutCascadeBandAdvisor" "cascade_ratio" (decimal 2 1) (decimal 5 1)

  abbrev pub message_bus_backpressure : BandClass n
  message_bus_backpressure =
      band_class n "MessageBusBackpressureAdvisor" "queue_depth" (decimal 100 0) (decimal 500 0)

  abbrev pub message_bus_partition_band : BandClass n
  message_bus_partition_band =
      band_class n "MessageBusPartitionBandAdvisor" "partition_ratio" (decimal 7 1) (decimal 95 2)

  abbrev pub message_bus_poison_pill : BandClass n
  message_bus_poison_pill =
      band_class n "MessageBusPoisonPillGuard" "poison_score" (decimal 2 1) (decimal 6 1)

  abbrev pub orchestrator_cascade_failure : BandClass n
  orchestrator_cascade_failure =
      band_class n "OrchestratorCascadeFailureAdvisor" "cascade_depth" (decimal 2 0) (decimal 4 0)

  abbrev pub orchestrator_fairness_aging : BandClass n
  orchestrator_fairness_aging =
      band_class n "OrchestratorFairnessAgingAdvisor" "wait_age_seconds" (decimal 30 0)
        (decimal 120 0)

  abbrev pub orchestrator_fan_in_stall_band : BandClass n
  orchestrator_fan_in_stall_band =
      band_class n "OrchestratorFanInStallBandAdvisor" "stall_ratio" (decimal 3 1) (decimal 7 1)

  abbrev pub orchestrator_fanout_budget : BandClass n
  orchestrator_fanout_budget =
      band_class n "OrchestratorFanoutBudgetBandAdvisor" "fanout_ratio" (decimal 6 1) (decimal 9 1)

  abbrev pub orchestrator_heartbeat_gap : BandClass n
  orchestrator_heartbeat_gap =
      band_class n "OrchestratorHeartbeatGapAdvisor" "heartbeat_gap_ratio" (decimal 25 2)
        (decimal 6 1)

  abbrev pub orchestrator_priority_inversion_band : BandClass n
  orchestrator_priority_inversion_band =
      band_class n "OrchestratorPriorityInversionBandAdvisor" "inversion_ratio" (decimal 7 1)
        (decimal 95 2)

  abbrev pub orchestrator_retry_storm_band : BandClass n
  orchestrator_retry_storm_band =
      band_class n "OrchestratorRetryStormBandAdvisor" "retry_storm_ratio" (decimal 25 2)
        (decimal 6 1)

  abbrev pub orphan_task_sweeper : BandClass n
  orphan_task_sweeper =
      band_class n "OrphanTaskSweeperGuard" "orphan_count" (decimal 2 1) (decimal 6 1)

  abbrev pub prompt_leak_band : BandClass n
  prompt_leak_band = band_class n "PromptLeakBandAdvisor" "leak_score" (decimal 2 1) (decimal 6 1)

  abbrev pub subgraph_cancel_leak : BandClass n
  subgraph_cancel_leak =
      band_class n "SubgraphCancelLeakAdvisor" "leak_ratio" (decimal 25 2) (decimal 6 1)

  abbrev pub subgraph_deadlock_residual_band : BandClass n
  subgraph_deadlock_residual_band =
      band_class n "SubgraphDeadlockResidualBandAdvisor" "deadlock_ratio" (decimal 2 1)
        (decimal 5 1)

  abbrev pub subgraph_recursion_cap : BandClass n
  subgraph_recursion_cap =
      band_class n "SubgraphRecursionCapAdvisor" "recursion_depth_ratio" (decimal 6 1) (decimal 9 1)

  abbrev pub subgraph_retry_amplification_band : BandClass n
  subgraph_retry_amplification_band =
      band_class n "SubgraphRetryAmplificationBandAdvisor" "amplification_ratio" (decimal 2 1)
        (decimal 5 1)

  abbrev pub supervisor_handoff_loop_band : BandClass n
  supervisor_handoff_loop_band =
      band_class n "SupervisorHandoffLoopBandAdvisor" "loop_ratio" (decimal 2 1) (decimal 5 1)

  abbrev pub supervisor_idle_skew : BandClass n
  supervisor_idle_skew =
      band_class n "SupervisorIdleSkewAdvisor" "idle_skew_ratio" (decimal 25 2) (decimal 6 1)

  abbrev pub supervisor_restart_thrash : BandClass n
  supervisor_restart_thrash =
      band_class n "SupervisorRestartThrashAdvisor" "restart_ratio" (decimal 25 2) (decimal 6 1)

  abbrev pub worker_heartbeat_miss_band : BandClass n
  worker_heartbeat_miss_band =
      band_class n "WorkerHeartbeatMissBandAdvisor" "miss_ratio" (decimal 25 2) (decimal 6 1)

  abbrev pub worker_mailbox_overflow_band : BandClass n
  worker_mailbox_overflow_band =
      band_class n "WorkerMailboxOverflowBandAdvisor" "overflow_ratio" (decimal 2 1) (decimal 5 1)

  abbrev pub worker_queue_depth_band : BandClass n
  worker_queue_depth_band =
      band_class n "WorkerQueueDepthBandAdvisor" "queue_depth_ratio" (decimal 2 1) (decimal 5 1)

  abbrev pub worker_starvation_band : BandClass n
  worker_starvation_band =
      band_class n "WorkerStarvationBandAdvisor" "starvation_ratio" (decimal 25 2) (decimal 6 1)

  abbrev pub orchestration : List (BandClass n)
  orchestration =
      actor_mailbox_overflow ∷ agent_affinity_decay_band ∷ agent_affinity_skew_band
      ∷ agent_capability_revocation ∷ agent_deadlock_detector ∷ agent_handoff_loop_band
      ∷ agent_loop_token_bleed ∷ agent_memory_poison_band ∷ agent_token_budget_skew_band
      ∷ bot_capability_drift ∷ fan_in_barrier_stall ∷ handoff_payload_bloat
      ∷ handoff_schema_drift_band ∷ handoff_timeout_band ∷ hitl_approval_starvation_band
      ∷ hitl_timeout_cascade_band ∷ message_bus_backpressure ∷ message_bus_partition_band
      ∷ message_bus_poison_pill ∷ orchestrator_cascade_failure ∷ orchestrator_fairness_aging
      ∷ orchestrator_fan_in_stall_band ∷ orchestrator_fanout_budget ∷ orchestrator_heartbeat_gap
      ∷ orchestrator_priority_inversion_band ∷ orchestrator_retry_storm_band ∷ orphan_task_sweeper
      ∷ prompt_leak_band ∷ subgraph_cancel_leak ∷ subgraph_deadlock_residual_band
      ∷ subgraph_recursion_cap ∷ subgraph_retry_amplification_band ∷ supervisor_handoff_loop_band
      ∷ supervisor_idle_skew ∷ supervisor_restart_thrash ∷ worker_heartbeat_miss_band
      ∷ worker_mailbox_overflow_band ∷ worker_queue_depth_band ∷ worker_starvation_band ∷ []
