-- ===== src/Config/Precedence.antt =====
-- Which credentials a command logs in with, `ConsulServerConnMgrConfig` of config/config.go.
use consul_ecs.Base.{
  ◌≡◌, ◌≢◌, eq_iff, true, false, String, Option, Result, ok, Error, arith, Result-cases, inl, inr,
}
use consul_ecs.Task.{TaskMeta}
use consul_ecs.Config.Types.{Config, ConsulLogin}
use consul_ecs.Config.Settings.{
  CaSource, DiscoveryConfig, LoginCredential, no_credentials, static_token, login,
  bootstrap_token_env_var, get_login_discovery_credentials, consul_server_conn_mgr_config,
}

module _ (env : String → String) (configure_tls : CaSource → Option Error)
    (task_region : TaskMeta → Result String)
    (generate_token : String → ConsulLogin → Result String) where
  -- Where the configuration for the connection to the servers is made, a bootstrap token in the
  -- environment is the credential, whether or not a login is configured; without one, a configured
  -- login is, with the credential that its own function makes; and without either there is none.
  pub credentials_precedence :
      (c : Config) (meta : TaskMeta) (d : DiscoveryConfig)
      → consul_server_conn_mgr_config env configure_tls task_region generate_token c meta ≡ ok d
      → (env bootstrap_token_env_var ≢ ""
          → d.credentials ≡ static_token (env bootstrap_token_env_var))
        × (env bootstrap_token_env_var ≡ ""
            → c.consul_login.enabled ≡ true
            → (l : LoginCredential) × (get_login_discovery_credentials env configure_tls task_region
                  generate_token c meta
                ≡ ok l)
              × (d.credentials ≡ login l))
        × (env bootstrap_token_env_var ≡ ""
            → c.consul_login.enabled ≡ false
            → d.credentials ≡ no_credentials)
  unfolding consul_server_conn_mgr_config
  credentials_precedence c meta d made =
      let token = env bootstrap_token_env_var in
      (
        λ given. ground (arith, eq_iff token ""),
        λ absent on.
            elim (Result-cases (
              get_login_discovery_credentials env configure_tls task_region generate_token c
                meta)) [
                  | inl (x, failed) ↦ absurd (ground (arith, eq_iff token ""))
                  | inr (l, is) ↦ (l, is, ground (arith, eq_iff token ""))
                ],
        λ absent off. ground (arith, eq_iff token ""),
      )
