-- ===== src/MeshInit/ServiceDefaults.antt =====
-- `registerServiceDefaults` of subcommand/mesh-init/command.go.
use consul_ecs.Base.{
  ℕ, zero, suc, ◌<>◌, ◌||◌, Bool, true, false, [], ◌∷◌, ◌++◌, Option, none, some, Result, ok, err,
  Error, wrapf, message,
}
use consul_ecs.Base.Text.{to_lower, contains_text, quote}
use consul_ecs.Base.Json.{null}
use consul_ecs.Consul.{
  AgentService, QueryOptions, PassiveHealthCheck, UpstreamConfig, UpstreamConfiguration,
  ServiceConfigEntry,
}
use consul_ecs.Client.{Client, History, service_defaults_get, service_defaults_set}
use consul_ecs.Config.Types.{OutlierDetectionConfig, NetworkPartitionResilienceConfig}
use consul_ecs.MeshInit.Defaults.{new_outlier_detection_config, normalize_outlier_detection_config}

unfoldable pub is_config_entry_not_found_error : Error → Bool
is_config_entry_not_found_error e =
    contains_text (to_lower (message e)) "not found"
    || contains_text (to_lower (message e)) "no such config entry"

abbrev outlier_detection_of : Option OutlierDetectionConfig → OutlierDetectionConfig
outlier_detection_of none = new_outlier_detection_config
outlier_detection_of (some cfg) = cfg

unfoldable pub passive_health_check_of : Option OutlierDetectionConfig → PassiveHealthCheck
unfolding normalize_outlier_detection_config new_outlier_detection_config
passive_health_check_of cfg =
    let normal = normalize_outlier_detection_config (some (outlier_detection_of cfg)) in
    record {
      interval = normal.interval;
      max_failures = normal.max_failures;
      enforcing_consecutive5xx = normal.enforcing_consecutive5xx;
      max_ejection_percent = normal.max_ejection_percent;
    }

-- The existing entry, or a new one for the service.
abbrev pub entry_or_new : AgentService → Option ServiceConfigEntry → ServiceConfigEntry
entry_or_new service (some entry) = entry
entry_or_new service none = record {
  kind = "service-defaults";
  name = service.service;
  partition = service.partition;
  namespace = service.namespace;
  upstream_config = none;
  other = null;
}

abbrev upstreams_or_empty : Option UpstreamConfiguration → UpstreamConfiguration
upstreams_or_empty none = record { defaults = none; overrides = null }
upstreams_or_empty (some u) = u

abbrev defaults_or_empty : Option UpstreamConfig → UpstreamConfig
defaults_or_empty none = record { passive_health_check = none; other = null }
defaults_or_empty (some d) = d

abbrev keep_or_set : PassiveHealthCheck → Option PassiveHealthCheck → PassiveHealthCheck
keep_or_set check none = check
keep_or_set check (some own) = own

-- The passive health check is set only where there is none.
unfoldable pub with_passive_health_check :
    PassiveHealthCheck → ServiceConfigEntry → ServiceConfigEntry
with_passive_health_check check entry =
    let upstreams = upstreams_or_empty entry.upstream_config in
    let defaults = defaults_or_empty upstreams.defaults in
    record entry {
      upstream_config = some (record upstreams {
        defaults = some (record defaults {
          passive_health_check = some (keep_or_set check defaults.passive_health_check);
        });
      });
    }

-- An attempt succeeds if the call says so and returns no error.
abbrev pub succeeds : Bool × Option Error → Bool
succeeds (true, none) = true
succeeds _ = false

-- The retries at a constant interval, without a limit in the code: on fuel, `none` where it runs out.
unfoldable pub set_with_retries : Client → ServiceConfigEntry → ℕ → History → Option History
set_with_retries api entry zero h = none
set_with_retries api entry (suc fuel) h =
    let h' = h ++ service_defaults_set entry ∷ [] in
    let later = set_with_retries api entry fuel h' in
    elim (succeeds (api.set_service_defaults h entry)) [ true ↦ some h' | false ↦ later ]

-- The entry to be registered: an error other than that it was not found ends the matter.
unfoldable pub merged_entry :
    AgentService
    → NetworkPartitionResilienceConfig
    → Result (Option ServiceConfigEntry)
    → Result ServiceConfigEntry
unfolding with_passive_health_check passive_health_check_of is_config_entry_not_found_error
merged_entry service resilience (ok found) = ok (
    with_passive_health_check (passive_health_check_of resilience.outlier_detection)
      (entry_or_new service found))
merged_entry service resilience (err e) = elim (is_config_entry_not_found_error e) [
  | true ↦ ok (
      with_passive_health_check (passive_health_check_of resilience.outlier_detection)
        (entry_or_new service none))
  | false ↦
      err (
        wrapf ("failed to fetch existing service defaults for service " <> quote service.service) e)
]

unfoldable pub register_service_defaults :
    Client
    → AgentService
    → NetworkPartitionResilienceConfig
    → ℕ
    → History
    → Option (Option Error × History)
unfolding merged_entry set_with_retries
register_service_defaults api service resilience fuel h =
    let opts : QueryOptions = record {
      namespace = service.namespace;
      partition = service.partition;
      filter = "";
    } in
    let h' = h ++ service_defaults_get service.service opts ∷ [] in
    elim (merged_entry service resilience (api.service_defaults h service.service opts)) [
      | err e ↦ some (some e, h')
      | ok entry ↦ elim (set_with_retries api entry fuel h') [
        | none ↦ none
        | some h2 ↦ some (none, h2)
      ]
    ]
