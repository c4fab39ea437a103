-- ===== src/MeshInit/Passive.antt =====
-- Passive health checks, `normalizeOutlierDetectionConfig` of subcommand/mesh-init/command.go.
use consul_ecs.Base.{ℕ, ◌≡◌, ◌≢◌, none, some, arith}
use consul_ecs.Config.Types.{OutlierDetectionConfig}
use consul_ecs.MeshInit.Defaults.{normalize_outlier_detection_config}

-- The normal form leaves neither percentage open, keeps what is given, and is stable.
pub normalize_keeps :
    (cfg : OutlierDetectionConfig)
    → let normal = normalize_outlier_detection_config (some cfg) in
      (normal.enforcing_consecutive5xx ≢ none)
      × (normal.max_ejection_percent ≢ none)
      × ((n : ℕ) → cfg.enforcing_consecutive5xx ≡ some n → normal.enforcing_consecutive5xx ≡ some n)
      × ((n : ℕ) → cfg.max_ejection_percent ≡ some n → normal.max_ejection_percent ≡ some n)
      × (normal.interval ≡ cfg.interval)
      × (normal.max_failures ≡ cfg.max_failures)
      × (normalize_outlier_detection_config (some normal) ≡ normal)
unfolding normalize_outlier_detection_config
normalize_keeps cfg = ground arith
