-- ===== src/Agent/Config.antt =====
-- config.go: the configuration of the agent.
use sre_agent_gitops.Prelude.{Bool, Duration, List, String, ℕ, ℤ}

-- A `float64` is its 64 bits.
abbrev pub Float64 : Type 0
Float64 = ℕ

pub record AgentConfig : Type 0 where
  pub cluster_name : String
  pub prometheus_url : String
  pub ollama_url : String
  pub ollama_model : String
  pub allowed_namespaces : List String
  pub allowed_controller_kinds : List String
  pub restart_pod_approved : Bool
  pub minimum_confidence : Float64
  pub poll_interval : Duration
  pub readiness_stale_after : Duration
  pub liveness_stale_after : Duration
  pub restart_cooldown : Duration
  pub attempt_window : Duration
  pub maximum_attempts : ℤ  -- int
  pub prometheus_timeout : Duration
  pub ollama_timeout : Duration
  pub kubernetes_request_timeout : Duration
  pub incident_store_connect_timeout : Duration
  pub incident_store_migration_timeout : Duration
  pub incident_store_backend : String
  pub incident_store_postgres_dsn : String
  pub incident_claim_holder_id : String
  pub incident_claim_lease_duration : Duration
  pub remediation_state_namespace : String
  pub remediation_state_config_map : String
  pub health_address : String
