-- ===== src/Advisors/SharedState.antt =====
-- The band advisors of src/multi_bot_agentic about the shared state, the blackboard and memory, one class each.
use multi_bot_agentic.Prelude.{List, [], ◌∷◌}
use multi_bot_agentic.Advisors.Numbers.{Numbers, decimal}
use multi_bot_agentic.Advisors.Bands.{BandClass, band_class}

module _ (n : Numbers) where
  abbrev pub blackboard_cas_write_skew : BandClass n
  blackboard_cas_write_skew =
      band_class n "BlackboardCasWriteSkewGuard" "write_skew_score" (decimal 6 1) (decimal 9 1)

  abbrev pub blackboard_lease_thrash : BandClass n
  blackboard_lease_thrash =
      band_class n "BlackboardLeaseThrashAdvisor" "thrash_ratio" (decimal 25 2) (decimal 6 1)

  abbrev pub blackboard_read_staleness : BandClass n
  blackboard_read_staleness =
      band_class n "BlackboardReadStalenessAdvisor" "staleness_ratio" (decimal 25 2) (decimal 6 1)

  abbrev pub blackboard_stale_entry : BandClass n
  blackboard_stale_entry =
      band_class n "BlackboardStaleEntryAdvisor" "stale_age_seconds" (decimal 300 0)
        (decimal 3600 0)

  abbrev pub blackboard_write_contention_band : BandClass n
  blackboard_write_contention_band =
      band_class n "BlackboardWriteContentionBandAdvisor" "contention_ratio" (decimal 2 1)
        (decimal 5 1)

  abbrev pub memory_compaction_lag_band : BandClass n
  memory_compaction_lag_band =
      band_class n "MemoryCompactionLagBandAdvisor" "lag_ratio" (decimal 2 1) (decimal 5 1)

  abbrev pub memory_namespace_leak : BandClass n
  memory_namespace_leak =
      band_class n "MemoryNamespaceLeakAdvisor" "leak_ratio" (decimal 2 1) (decimal 55 2)

  abbrev pub shared_kv_lease_expiry_band : BandClass n
  shared_kv_lease_expiry_band =
      band_class n "SharedKvLeaseExpiryBandAdvisor" "expiry_ratio" (decimal 2 1) (decimal 5 1)

  abbrev pub shared_kv_write_amplification : BandClass n
  shared_kv_write_amplification =
      band_class n "SharedKvWriteAmplificationAdvisor" "write_amp_ratio" (decimal 25 2)
        (decimal 6 1)

  abbrev pub shared_lock_contention_band : BandClass n
  shared_lock_contention_band =
      band_class n "SharedLockContentionBandAdvisor" "contention_ratio" (decimal 25 2) (decimal 6 1)

  abbrev pub shared_memory_poisoning : BandClass n
  shared_memory_poisoning =
      band_class n "SharedMemoryPoisoningGuard" "poison_score" (decimal 2 1) (decimal 6 1)

  abbrev pub shared_memory_quota_thrash_band : BandClass n
  shared_memory_quota_thrash_band =
      band_class n "SharedMemoryQuotaThrashBandAdvisor" "thrash_ratio" (decimal 7 1) (decimal 95 2)

  abbrev pub shared_state_write_skew_band : BandClass n
  shared_state_write_skew_band =
      band_class n "SharedStateWriteSkewBandAdvisor" "write_skew_ratio" (decimal 2 1) (decimal 5 1)

  abbrev pub shared_state : List (BandClass n)
  shared_state =
      blackboard_cas_write_skew ∷ blackboard_lease_thrash ∷ blackboard_read_staleness
      ∷ blackboard_stale_entry ∷ blackboard_write_contention_band ∷ memory_compaction_lag_band
      ∷ memory_namespace_leak ∷ shared_kv_lease_expiry_band ∷ shared_kv_write_amplification
      ∷ shared_lock_contention_band ∷ shared_memory_poisoning ∷ shared_memory_quota_thrash_band
      ∷ shared_state_write_skew_band ∷ []
