-- ===== src/Console/Documents.antt =====
-- The JSON documents that the console loads, as its types declare them: the types `HeroSummary` to
-- `ReleaseAcceptance` of apps/web/components/mission-console.tsx. Counts are natural numbers; `F` is
-- the type of all other numbers.
use shiftzero_hero.Common.{ℕ, String, Bool, Option, List}

pub data ItemStatus : Type 0 where
  passed external_evidence_required failed : ItemStatus

pub record SafetyCheck : Type 0 where
  pub name : String
  pub passed : Bool
  pub detail : String
  pub evidence_hash : String

pub record OperationMetrics (F : Type 0) : Type 0 where
  pub schema_version : String
  pub mission_id : String
  pub sample_size : ℕ
  pub completed : Bool
  pub total_duration_ms : F
  pub human_interventions : ℕ

pub record FinalPose (F : Type 0) : Type 0 where
  pub node_id : String
  pub x : F
  pub y : F
  pub heading_deg : F

pub record ModelCall (F : Type 0) : Type 0 where
  pub provider : String
  pub model : String
  pub request_id : String
  pub tool_name : String
  pub latency_ms : F
  pub tool_arguments_hash : String
  pub tool_result_hash : String

pub record HeroSummary (F : Type 0) : Type 0 where
  pub evidence_captured_at : String
  pub proposal_id : String
  pub selected_agv : String
  pub safety_policy_sha256 : String
  pub safety_checks : List SafetyCheck
  pub stop_latency_ms : F
  pub stop_latency_kind : String
  pub trace_chain_valid : Bool
  pub trace_id : String
  pub total_duration_ms : Option F
  pub human_interventions : Option ℕ
  pub estimated_model_cost_usd : Option F
  pub operation_metrics : Option (OperationMetrics F)
  pub final_node : String
  pub destination_occupancy : String
  pub final_pose : FinalPose F
  pub model_calls : Option (List (ModelCall F))

pub record JudgeLoadEvidence (F : Type 0) : Type 0 where
  pub measurement_scope : String
  pub sample_count : ℕ
  pub median_ms : F
  pub p95_ms : F
  pub threshold_ms : F
  pub acceptance_passed : Bool
  pub measured_at : String

pub record AgvMetrics (F : Type 0) : Type 0 where
  pub mean_utilization : F
  pub p95_queue_wait_seconds : F
  pub required_agvs_for_80_percent_buffer : ℕ
  pub status : String

pub record OperatorImpact (F : Type 0) : Type 0 where
  pub hours_saved_per_day : F
  pub touch_time_reduction_percent : F

pub record Load (F : Type 0) : Type 0 where
  pub pallets_per_day : ℕ
  pub agv_metrics : AgvMetrics F
  pub operator_impact : OperatorImpact F

pub record ImpactLoadModel (F : Type 0) : Type 0 where
  pub measurement_scope : String
  pub assumptions_are_not_measurements : Bool
  pub loads : List (Load F)

pub record ScenarioMetrics (F : Type 0) : Type 0 where
  pub sample_size : ℕ
  pub validated_count : ℕ
  pub safety_violation_count : ℕ
  pub unsafe_plan_rejection_recall : F

pub record ScreenshotEvidence : Type 0 where
  pub evidence_class : String
  pub final_submission_eligible : Bool
  pub real_provider : Bool
  pub replacement_required_after_live_gate : Bool

pub record GateMetrics (F : Type 0) : Type 0 where
  pub requested_runs : ℕ
  pub completed_runs : ℕ
  pub first_schema_valid_rate : F
  pub post_repair_schema_valid_rate : F
  pub hero_max_consecutive_successes : ℕ
  pub intent_to_proposal_p95_seconds : F

pub record LiveGateEvidence (F : Type 0) : Type 0 where
  pub generated_at : String
  pub provider : String
  pub model : String
  pub real_provider : Bool
  pub official_gate_passed : Bool
  pub all_thresholds_passed : Bool
  pub report_hash : String
  pub failures : List String
  pub metrics : GateMetrics F

pub record PromptContract : Type 0 where
  pub version : String
  pub sha256 : String
  pub matches_tested_commit : Bool

pub record ToolSchema : Type 0 where
  pub version : String
  pub sha256 : String
  pub matches_tested_commit : Bool

pub record SafetyPolicy : Type 0 where
  pub version : String
  pub sha256 : String

pub record RuntimeMetadata : Type 0 where
  pub provider : String
  pub model : String
  pub endpoint_base_url : String
  pub endpoint_region : String
  pub tested_git_commit : String
  pub prompt_contract : PromptContract
  pub tool_schema : ToolSchema
  pub safety_policy : SafetyPolicy

pub record Compatibility : Type 0 where
  pub live_run_count : ℕ
  pub model_call_count : ℕ
  pub unique_request_id_count : ℕ
  pub http_200_count : ℕ
  pub retry_count : ℕ
  pub repair_count : ℕ
  pub all_trace_chains_valid : Bool

pub record LatencyPercentiles (F : Type 0) : Type 0 where
  pub median : F
  pub p95 : F
  pub maximum : F

pub record ReplanMission (F : Type 0) : Type 0 where
  pub measurement_scope : String
  pub sample_size : ℕ
  pub successful_result_count : ℕ
  pub latency_ms : LatencyPercentiles F

pub record CostPercentiles (F : Type 0) : Type 0 where
  pub median : F
  pub p95 : F
  pub maximum : F

pub record CostKpi (F : Type 0) : Type 0 where
  pub measurement_kind : String
  pub catalog_captured_at : String
  pub prompt_usd_per_million_tokens : F
  pub completion_usd_per_million_tokens : F
  pub total_gate_estimated_usd : F
  pub per_mission_estimated_usd : CostPercentiles F

pub record Measurements (F : Type 0) : Type 0 where
  pub replan_mission : ReplanMission F
  pub cost_kpi : CostKpi F

pub record LiveModelCall (F : Type 0) : Type 0 where
  pub completed_at : String
  pub provider : String
  pub model : String
  pub request_id : String
  pub http_status : ℕ
  pub finish_reason : String
  pub tool_name : String
  pub latency_ms : F
  pub input_tokens : ℕ
  pub output_tokens : ℕ
  pub retry_count : ℕ
  pub repair_count : ℕ
  pub tool_arguments_hash : String
  pub tool_result_hash : String

pub record RepresentativeLiveTrace (F : Type 0) : Type 0 where
  pub trace_id : String
  pub trace_jsonl_sha256 : String
  pub model_calls : List (LiveModelCall F)

pub record LiveRuntimeSummary (F : Type 0) : Type 0 where
  pub generated_at : String
  pub report_hash : String
  pub evidence_class : String
  pub metadata : RuntimeMetadata
  pub compatibility : Compatibility
  pub measurements : Measurements F
  pub representative_live_trace : RepresentativeLiveTrace F

pub record LocalArtifact : Type 0 where
  pub smoke_test_passed : Bool
  pub scenario_count : ℕ
  pub validated_count : ℕ
  pub safety_violation_count : ℕ

pub record ServerlessReadiness : Type 0 where
  pub artifact_ready : Bool
  pub cloud_deployed : Bool
  pub checked_at : String
  pub report_hash : String
  pub blockers : List String
  pub local_artifact : LocalArtifact

pub record ReleaseItem : Type 0 where
  pub id : String
  pub requirement : String
  pub status : ItemStatus
  pub passed : Bool
  pub detail : String
  pub evidence : List String

pub record ReleaseAcceptance : Type 0 where
  pub schema_version : String
  pub passed_count : ℕ
  pub total_count : ℕ
  pub all_acceptance_passed : Bool
  pub blocked_external_ids : List String
  pub failed_ids : List String
  pub report_hash : String
  pub items : List ReleaseItem
