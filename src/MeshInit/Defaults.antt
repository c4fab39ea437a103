-- ===== src/MeshInit/Defaults.antt =====
-- The service defaults of subcommand/mesh-init/command.go: passive health checks for upstreams.
use consul_ecs.Base.{ℕ, Option, none, some}
use consul_ecs.Config.Types.{
  OutlierDetectionConfig, default_outlier_detection_interval,
  default_outlier_detection_max_failures, default_outlier_detection_enforcing_consecutive5xx,
  default_outlier_detection_max_ejection_percent,
}

-- `NewOutlierDetectionConfig` of config/types.go
unfoldable pub new_outlier_detection_config : OutlierDetectionConfig
new_outlier_detection_config = record {
  interval = default_outlier_detection_interval;
  max_failures = default_outlier_detection_max_failures;
  enforcing_consecutive5xx = some default_outlier_detection_enforcing_consecutive5xx;
  max_ejection_percent = some default_outlier_detection_max_ejection_percent;
}

abbrev pub or_some : Option ℕ → ℕ → Option ℕ
or_some none d = some d
or_some (some n) d = some n

unfoldable pub normalize_outlier_detection_config :
    Option OutlierDetectionConfig → OutlierDetectionConfig
unfolding new_outlier_detection_config
normalize_outlier_detection_config none = new_outlier_detection_config
normalize_outlier_detection_config (some cfg) = record {
  interval = cfg.interval;
  max_failures = cfg.max_failures;
  enforcing_consecutive5xx =
      or_some cfg.enforcing_consecutive5xx default_outlier_detection_enforcing_consecutive5xx;
  max_ejection_percent =
      or_some cfg.max_ejection_percent default_outlier_detection_max_ejection_percent;
}
