-- ===== src/MeshInit/Host.antt =====
-- What the commands take from the machine and from other packages, and what mesh-init leaves behind.
use consul_ecs.Base.{String, Bool, List, Option, none, some, Result, Error}
use consul_ecs.Base.Json.{Json}
use consul_ecs.Task.{TaskMeta}
use consul_ecs.Client.{Client, History}
use consul_ecs.Config.Types.{ConsulLogin}
use consul_ecs.Config.Settings.{CaSource, ClientConfig, DiscoveryConfig}
use consul_ecs.Dns.{DnsConfig}
use consul_ecs.Redirect.{Iptables, IptablesConfig}

-- In their order: the environment, the metadata endpoint, the parts of the server connection manager
-- and of the API client, the files, `os.Executable` with the search for its path, `path.Join`,
-- `json.Marshal`, the DNS package and iptables. `regexp.MatchString` is asked for the pattern
-- `ld-[^.]+\.so\.[0-9]+`.
pub record Host : Type 0 where
  pub env : String → String
  pub http_get : String → Result TaskMeta
  pub configure_tls : CaSource → Option Error
  pub task_region : TaskMeta → Result String
  pub generate_token : String → ConsulLogin → Result String
  pub new_watcher : DiscoveryConfig → Option Error
  -- The address and the token of the state.
  pub watcher_state : DiscoveryConfig → Result (String × String)
  pub join_host_port : String → String → String
  pub new_client : ClientConfig → String → String → Option Error
  pub api : Client
  pub executable : Result String
  pub is_dynamic_linker : String → Bool
  pub look_path : Result String
  pub eval_symlinks : String → Result String
  pub abs : String → Result String
  pub read_file : String → Result String
  pub write_file : String → String → Option Error
  pub path_join : String → String → String
  pub marshal : Json → Result String
  pub client_config_from_file : String → Result (Option DnsConfig)
  pub iptables : Iptables

-- The calls made to Consul, the files written, with their contents, and the rules set up.
pub record Progress : Type 0 where
  pub history : History
  pub files : List (String × String)
  pub rules : List IptablesConfig

-- The command returns, is still retrying when the fuel is out, or dereferences nil.
pub data Outcome : Type 0 where
  finished : Option Error → Progress → Outcome
  retrying : Outcome
  panics : Outcome

-- `if err := m; err != nil { return err }; k`
abbrev pub and_then : Outcome → (Progress → Outcome) → Outcome
and_then (finished none p) k = k p
and_then (finished (some e) p) k = finished (some e) p
and_then retrying k = retrying
and_then panics k = panics

-- A value or the end of the command.
abbrev pub with {ℓ} : {A : Type ℓ} → Result A → Progress → (A → Outcome) → Outcome
with (Result.ok a) p k = k a
with (Result.err e) p k = finished (some e) p

abbrev pub in_turn : List (Progress → Outcome) → Progress → Outcome
in_turn List.[] p = finished none p
in_turn (List.◌∷◌ step steps) p = and_then (step p) (in_turn steps)
