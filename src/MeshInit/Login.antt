-- ===== src/MeshInit/Login.antt =====
-- The credentials that mesh-init hands on to the dataplane.
use mathlib.Core.Path.{subst}
use consul_ecs.Config.Precedence.{credentials_precedence}
use consul_ecs.Base.{sym, ◌≡◌, ◌≢◌, refl, String, true, Option, some, Result, ok, Error}
use consul_ecs.Task.{TaskMeta}
use consul_ecs.Config.Types.{Config, ConsulLogin}
use consul_ecs.Config.Settings.{
  CaSource, LoginCredential, login, DiscoveryConfig, bootstrap_token_env_var,
  consul_server_conn_mgr_config,
}
use consul_ecs.Dataplane.{CredentialsConfig, DataplaneInput, get_dataplane_config}
use consul_ecs.MeshInit.Run.{login_of, login_creds}

-- The dataplane's credentials are those of the login, in all its fields.
abbrev pub IsLogin : LoginCredential → CredentialsConfig → Type 0
IsLogin l k =
    (k.credential_type ≡ "login")
    × (k.login.auth_method ≡ l.auth_method)
    × (k.login.namespace ≡ l.namespace)
    × (k.login.datacenter ≡ l.datacenter)
    × (k.login.partition ≡ l.partition)
    × (k.login.bearer_token ≡ l.bearer_token)
    × (k.login.meta ≡ l.meta)

-- What the dataplane is told for a login.
abbrev handed_on : LoginCredential → CredentialsConfig
handed_on l = record {
  credential_type = "login";
  login = record {
    auth_method = l.auth_method;
    namespace = l.namespace;
    partition = l.partition;
    datacenter = l.datacenter;
    bearer_token = l.bearer_token;
    meta = l.meta;
  };
}

module _ (env : String → String) (configure_tls : CaSource → Option Error)
    (task_region : TaskMeta → Result String)
    (generate_token : String → ConsulLogin → Result String) where
  -- Where a login is enabled, the dataplane is told to log in: with the credentials with which
  -- mesh-init itself has logged in, if there is no bootstrap token; and if there is one, with an empty
  -- auth method and an empty bearer token, whatever is configured.
  pub dataplane_login :
      (c : Config) (meta : TaskMeta) (conn : DiscoveryConfig) (i : DataplaneInput)
      → c.consul_login.enabled ≡ true
      → consul_server_conn_mgr_config env configure_tls task_region generate_token c meta ≡ ok conn
      → i.login_credentials ≡ login_creds c conn
      → (k : CredentialsConfig) × ((get_dataplane_config i).consul.credentials ≡ some k)
        × (env bootstrap_token_env_var ≡ ""
            → (l : LoginCredential) × (conn.credentials ≡ login l) × IsLogin l k)
        × (env bootstrap_token_env_var ≢ ""
            → (k.credential_type ≡ "login")
              × (k.login.auth_method ≡ "")
              × (k.login.bearer_token ≡ ""))
  unfolding get_dataplane_config login_creds login_of
  dataplane_login c meta conn i on e given =
      let precedence =
        credentials_precedence env configure_tls task_region generate_token c meta conn e in
      (
        handed_on (login_of conn.credentials),
        rw (given, on) refl,
        λ unset.
            let (l, _, is) = precedence.1 unset on in
            (
              l,
              is,
              subst (λ k. IsLogin l (handed_on (login_of k))) (sym is)
                  (refl, refl, refl, refl, refl, refl, refl),
            ),
        λ set.
            subst
              (λ k.
                let d = handed_on (login_of k) in
                (d.credential_type ≡ "login")
                × (d.login.auth_method ≡ "")
                × (d.login.bearer_token ≡ ""))
              (sym (precedence.0 set)) (refl, refl, refl),
      )
