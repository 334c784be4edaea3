-- ===== src/Advisors/Tooling.antt =====
-- The band advisors of src/multi_bot_agentic about tools and their sandbox, one class each.
use multi_bot_agentic.Prelude.{List, [], ◌∷◌}
use multi_bot_agentic.Advisors.Numbers.{Numbers, decimal}
use multi_bot_agentic.Advisors.Bands.{BandClass, band_class}

module _ (n : Numbers) where
  abbrev pub parallel_tool_collision : BandClass n
  parallel_tool_collision =
      band_class n "ParallelToolCollisionAdvisor" "collision_ratio" (decimal 6 1) (decimal 9 1)

  abbrev pub tool_arg_schema_drift : BandClass n
  tool_arg_schema_drift =
      band_class n "ToolArgSchemaDriftGuard" "schema_drift_score" (decimal 15 2) (decimal 4 1)

  abbrev pub tool_budget_exhaustion_band : BandClass n
  tool_budget_exhaustion_band =
      band_class n "ToolBudgetExhaustionBandAdvisor" "exhaustion_ratio" (decimal 7 1) (decimal 95 2)

  abbrev pub tool_idempotency_collision_band : BandClass n
  tool_idempotency_collision_band =
      band_class n "ToolIdempotencyCollisionBandAdvisor" "collision_ratio" (decimal 7 1)
        (decimal 95 2)

  abbrev pub tool_permission_drift : BandClass n
  tool_permission_drift =
      band_class n "ToolPermissionDriftAdvisor" "drift_ratio" (decimal 25 2) (decimal 6 1)

  abbrev pub tool_permission_escalation_band : BandClass n
  tool_permission_escalation_band =
      band_class n "ToolPermissionEscalationBandAdvisor" "escalation_score" (decimal 6 1)
        (decimal 9 1)

  abbrev pub tool_result_poisoning : BandClass n
  tool_result_poisoning =
      band_class n "ToolResultPoisoningGuard" "poison_score" (decimal 2 1) (decimal 6 1)

  abbrev pub tool_result_schema_drift_band : BandClass n
  tool_result_schema_drift_band =
      band_class n "ToolResultSchemaDriftBandAdvisor" "drift_ratio" (decimal 25 2) (decimal 6 1)

  abbrev pub tool_result_schema_lag : BandClass n
  tool_result_schema_lag =
      band_class n "ToolResultSchemaLagAdvisor" "lag_ratio" (decimal 6 1) (decimal 9 1)

  abbrev pub tool_result_size_bomb : BandClass n
  tool_result_size_bomb =
      band_class n "ToolResultSizeBombGuard" "result_bytes" (decimal 2 1) (decimal 6 1)

  abbrev pub tool_result_truncation_band : BandClass n
  tool_result_truncation_band =
      band_class n "ToolResultTruncationBandAdvisor" "truncation_ratio" (decimal 2 1) (decimal 5 1)

  abbrev pub tool_retry_budget : BandClass n
  tool_retry_budget =
      band_class n "ToolRetryBudgetBandGuard" "retry_count" (decimal 3 0) (decimal 10 0)

  abbrev pub tool_sandbox_cpu_quota : BandClass n
  tool_sandbox_cpu_quota =
      band_class n "ToolSandboxCpuQuotaGuard" "cpu_percent" (decimal 70 0) (decimal 95 0)

  abbrev pub tool_sandbox_disk_quota : BandClass n
  tool_sandbox_disk_quota =
      band_class n "ToolSandboxDiskQuotaGuard" "disk_mb" (decimal 1024 0) (decimal 4096 0)

  abbrev pub tool_sandbox_dns_rebind : BandClass n
  tool_sandbox_dns_rebind =
      band_class n "ToolSandboxDnsRebindGuard" "rebind_score" (decimal 2 1) (decimal 6 1)

  abbrev pub tool_sandbox_escape_attempt_band : BandClass n
  tool_sandbox_escape_attempt_band =
      band_class n "ToolSandboxEscapeAttemptBandAdvisor" "attempt_ratio" (decimal 5 2) (decimal 2 1)

  abbrev pub tool_sandbox_memory_quota : BandClass n
  tool_sandbox_memory_quota =
      band_class n "ToolSandboxMemoryQuotaGuard" "memory_mb" (decimal 512 0) (decimal 1024 0)

  abbrev pub tool_sandbox_network_exfil : BandClass n
  tool_sandbox_network_exfil =
      band_class n "ToolSandboxNetworkExfilGuard" "exfil_score" (decimal 2 1) (decimal 6 1)

  abbrev pub tool_sandbox_syscall_denylist : BandClass n
  tool_sandbox_syscall_denylist =
      band_class n "ToolSandboxSyscallDenylistGuard" "denied_syscall_rate" (decimal 5 2)
        (decimal 2 1)

  abbrev pub tool_schema_compat_band : BandClass n
  tool_schema_compat_band =
      band_class n "ToolSchemaCompatBandAdvisor" "compat_ratio" (decimal 2 1) (decimal 5 1)

  abbrev pub tool_side_effect_ledger : BandClass n
  tool_side_effect_ledger =
      band_class n "ToolSideEffectLedgerAdvisor" "side_effect_ratio" (decimal 3 1) (decimal 7 1)

  abbrev pub tool_side_effect_orphan_band : BandClass n
  tool_side_effect_orphan_band =
      band_class n "ToolSideEffectOrphanBandAdvisor" "orphan_ratio" (decimal 2 1) (decimal 5 1)

  abbrev pub tool_side_effect_replay_band : BandClass n
  tool_side_effect_replay_band =
      band_class n "ToolSideEffectReplayBandAdvisor" "replay_ratio" (decimal 25 2) (decimal 6 1)

  abbrev pub tool_timeout_cascade_band : BandClass n
  tool_timeout_cascade_band =
      band_class n "ToolTimeoutCascadeBandAdvisor" "cascade_ratio" (decimal 22 2) (decimal 58 2)

  abbrev pub tooling : List (BandClass n)
  tooling =
      parallel_tool_collision ∷ tool_arg_schema_drift ∷ tool_budget_exhaustion_band
      ∷ tool_idempotency_collision_band ∷ tool_permission_drift ∷ tool_permission_escalation_band
      ∷ tool_result_poisoning ∷ tool_result_schema_drift_band ∷ tool_result_schema_lag
      ∷ tool_result_size_bomb ∷ tool_result_truncation_band ∷ tool_retry_budget
      ∷ tool_sandbox_cpu_quota ∷ tool_sandbox_disk_quota ∷ tool_sandbox_dns_rebind
      ∷ tool_sandbox_escape_attempt_band ∷ tool_sandbox_memory_quota ∷ tool_sandbox_network_exfil
      ∷ tool_sandbox_syscall_denylist ∷ tool_schema_compat_band ∷ tool_side_effect_ledger
      ∷ tool_side_effect_orphan_band ∷ tool_side_effect_replay_band ∷ tool_timeout_cascade_band ∷ []
