-- ===== src/MeshInit/Steps.antt =====
-- The steps of mesh-init come to an end, without a nil dereference, where the retries do.
use consul_ecs.Base.{
  ℕ, ◌≡◌, ◌≢◌, ◌<>◌, refl, String, List, [], ◌∷◌, ◌++◌, Option, none, some, ok, ◌>>=◌, arith, inl,
  inr, Option-cases, Result-cases, Bool-cases,
}
use consul_ecs.Task.{TaskMeta, ecs_task_metadata, cluster_arn}
use consul_ecs.Consul.{AgentService, CatalogRegistration, ConnectProxy}
use consul_ecs.Client.{History}
use consul_ecs.Config.Types.{Config, ConnectProxyConfig, NetworkPartitionResilienceConfig}
use consul_ecs.Config.Settings.{
  consul_dns_enabled, transparent_proxy_enabled, DiscoveryConfig, LoginCredential,
}
use consul_ecs.Config.Registration.{get_health_check_port}
use consul_ecs.Base.Text.{quote}
use consul_ecs.Dataplane.Encode.{generate_json}
use consul_ecs.Redirect.{new, apply}
use consul_ecs.MeshInit.ServiceDefaults.{register_service_defaults}
use consul_ecs.MeshInit.Host.{Host, Progress, Outcome, in_turn, with}
use consul_ecs.MeshInit.Files.{
  executable_path, copy_ecs_binary_to_shared_volume, write_rpc_ca_cert_to_shared_volume,
  dataplane_config, generate_and_write_dataplane_config, configure_dns, proxy_query,
  get_proxy_service_registration, redirect_to, apply_traffic_redirection_rules,
}
use consul_ecs.MeshInit.Run.{
  register_with_retries, login_creds, enabled_resilience, register_step, service_defaults_step,
  dns_step, redirection_step, write_files, register_and_write, connect_servers, join_mesh, real_run,
}
use consul_ecs.MeshInit.Ends.{
  Ends, with-Ends, in_turn-Ends, HasService, HasServiceIfAny, IsConfigured,
  proxy_health_check_port-some, registrations-HasService, only_proxy-proxy, apply-some,
}

-- What is known of the retries: none is still going on when the fuel is out.
module _ (host : Host) (c : Config) (fuel : ℕ)
    (registers : (registration : CatalogRegistration) (h : History)
      → register_with_retries host.api registration fuel h ≢ none)
    (sets : (service : AgentService) (resilience : NetworkPartitionResilienceConfig) (h : History)
      → register_service_defaults host.api service resilience fuel h ≢ none)
    (configured : IsConfigured c) where
  register_step-Ends :
      (registration : Option CatalogRegistration) (p : Progress)
      → Ends (register_step host c fuel registration p)
  unfolding register_step
  register_step-Ends none p = tt
  register_step-Ends (some registration) p =
      elim (Option-cases (register_with_retries host.api registration fuel p.history)) [
        | inl out ↦ absurd (registers registration p.history out)
        | inr (h, done) ↦ rw (done, register_step) tt
      ]

  service_defaults_step-Ends :
      (registration : Option CatalogRegistration) (p : Progress)
      → HasServiceIfAny registration
      → Ends (service_defaults_step host c fuel registration p)
  unfolding service_defaults_step
  service_defaults_step-Ends none p has = tt
  service_defaults_step-Ends (some registration) p (service, is) =
      elim (Option-cases (enabled_resilience c)) [
        | inl off ↦ rw (off, service_defaults_step) tt
        | inr (resilience, on) ↦
            elim (Option-cases
              (register_service_defaults host.api service resilience fuel p.history)) [
                | inl out ↦ absurd (sets service resilience p.history out)
                | inr ((e, h), done) ↦ rw (on, is, done, service_defaults_step) tt
              ]
      ]

  copy_ecs_binary-Ends : (p : Progress) → Ends (copy_ecs_binary_to_shared_volume host c p)
  unfolding copy_ecs_binary_to_shared_volume
  copy_ecs_binary-Ends p = elim (Result-cases (executable_path host c >>= host.read_file)) [
    | inl (e, failed) ↦ rw (failed, copy_ecs_binary_to_shared_volume) tt
    | inr (content, read) ↦ rw (read, copy_ecs_binary_to_shared_volume) tt
  ]

  dataplane_config-Ends :
      (proxy : CatalogRegistration) (creds : Option LoginCredential) (file : String) (p : Progress)
      → HasService proxy
      → Ends (generate_and_write_dataplane_config host c proxy creds file (consul_dns_enabled c) p)
  unfolding generate_and_write_dataplane_config dataplane_config
  dataplane_config-Ends proxy creds file p (service, is) =
      elim (Option-cases (dataplane_config host c proxy creds file (consul_dns_enabled c))) [
        | inl missing ↦
            let (port, known) = proxy_health_check_port-some c host configured in
            absurd (ground (arith, is, known, missing))
        | inr (cfg, made) ↦ elim (Result-cases (host.marshal (generate_json cfg))) [
          | inl (e, failed) ↦ rw (made, failed, generate_and_write_dataplane_config) tt
          | inr (json, marshalled) ↦ rw (made, marshalled, generate_and_write_dataplane_config) tt
        ]
      ]

  dns_step-Ends : (p : Progress) → Ends (dns_step host c fuel p)
  unfolding dns_step configure_dns
  dns_step-Ends p = elim (Bool-cases (consul_dns_enabled c)) [
    | inl on ↦ rw (on, dns_step) tt
    | inr off ↦ rw (off, dns_step) tt
  ]

  proxy_registration-proxy :
      (arn id : String) (h : History) (svc : AgentService)
      → get_proxy_service_registration host c arn id h ≡ ok svc
      → (proxy : ConnectProxy) × (svc.proxy ≡ some proxy)
  unfolding get_proxy_service_registration
  proxy_registration-proxy arn id h svc e =
      elim (Result-cases (
        host.api.services h arn
          (record { namespace = ""; partition = ""; filter = "ID == " <> quote id }))) [
            | inl (x, failed) ↦ absurd (ground (arith, e, failed))
            | inr (services, found) ↦
                only_proxy-proxy id services svc (rw (found, get_proxy_service_registration) at e)
          ]

  redirect_to-Ends :
      (svc : AgentService) (proxy : ConnectProxy) (own : ConnectProxyConfig) (p : Progress)
      → svc.proxy ≡ some proxy
      → c.proxy ≡ some own
      → Ends (redirect_to host c svc p)
  unfolding redirect_to new
  redirect_to-Ends svc proxy own p has is =
      let cfg = new c (some svc) (get_health_check_port own.health_check_port ∷ []) in
      elim (Option-cases (apply host.iptables cfg)) [
        | inl bare ↦ absurd (apply-some host.iptables cfg svc proxy refl has bare)
        | inr ((e, rules), done) ↦ rw (is, done, redirect_to) tt
      ]

  redirection_step-Ends :
      (proxy : CatalogRegistration) (arn : String) (p : Progress)
      → HasService proxy
      → Ends (redirection_step host c fuel proxy arn p)
  unfolding redirection_step apply_traffic_redirection_rules transparent_proxy_enabled
  redirection_step-Ends proxy arn p (service, is) =
      elim (Bool-cases (transparent_proxy_enabled c)) [
        | inr off ↦ rw (off, redirection_step) tt
        | inl on ↦ elim configured [
          | inl gateway ↦ absurd (ground (arith, on, gateway))
          | inr (typical, own, set) ↦
              let p' : Progress = record p {
                history = p.history ++ proxy_query host c arn service.id ∷ [];
              } in
              rw (on, is, redirection_step, apply_traffic_redirection_rules)
                (with-Ends (get_proxy_service_registration host c arn service.id p.history) p'
                  (λ svc. redirect_to host c svc p')
                  (λ svc found.
                    let (proxy', has) =
                      proxy_registration-proxy arn service.id p.history svc found in
                    redirect_to-Ends svc proxy' own p' has set))
        ]
      ]

  write_files-Ends :
      (creds : Option LoginCredential) (proxy : CatalogRegistration) (arn : String) (p : Progress)
      → HasService proxy
      → Ends (write_files host c fuel creds proxy arn p)
  unfolding write_files
  write_files-Ends creds proxy arn p has =
      let out = write_rpc_ca_cert_to_shared_volume host c p in
      let steps = λ (file : String).
        generate_and_write_dataplane_config host c proxy creds file (consul_dns_enabled c)
        ∷ dns_step host c fuel
        ∷ redirection_step host c fuel proxy arn
        ∷ [] in
      with-Ends out.0 out.1 (λ file. in_turn (steps file) out.1)
        (λ file _.
          in_turn-Ends (steps file)
            (
              λ q. dataplane_config-Ends proxy creds file q has,
              (dns_step-Ends, (λ q. redirection_step-Ends proxy arn q has, tt)),
            )
            out.1)

  join_mesh-Ends :
      (conn : DiscoveryConfig) (meta : TaskMeta) (arn : String) (p : Progress)
      → Ends (join_mesh host c fuel conn meta arn p)
  unfolding join_mesh register_and_write
  join_mesh-Ends conn meta arn p =
      let (service, proxy, are, has, has_proxy) =
        registrations-HasService c (host.env "AWS_REGION") meta arn configured in
      let steps : List (Progress → Outcome) =
        register_step host c fuel service
        ∷ register_step host c fuel (some proxy)
        ∷ service_defaults_step host c fuel service
        ∷ copy_ecs_binary_to_shared_volume host c
        ∷ write_files host c fuel (login_creds c conn) proxy arn
        ∷ [] in
      rw (are, join_mesh)
        (in_turn-Ends steps
          (
            register_step-Ends service,
            (
              register_step-Ends (some proxy),
              (
                λ q. service_defaults_step-Ends service q has,
                (
                  copy_ecs_binary-Ends,
                  (λ q. write_files-Ends (login_creds c conn) proxy arn q has_proxy, tt),
                ),
              ),
            ),
          )
          p)

  pub real_run-Ends : (p : Progress) → Ends (real_run host c fuel p)
  unfolding real_run
  real_run-Ends p =
      with-Ends (ecs_task_metadata (host.env "ECS_CONTAINER_METADATA_URI_V4") host.http_get) p
        (λ meta. with (cluster_arn meta) p (λ arn.
          with (connect_servers host c fuel meta) p
            (λ conn. join_mesh host c fuel conn meta arn p)))
        (λ meta _.
          with-Ends (cluster_arn meta) p
            (λ arn.
              with (connect_servers host c fuel meta) p
                (λ conn. join_mesh host c fuel conn meta arn p))
            (λ arn _.
              with-Ends (connect_servers host c fuel meta) p
                (λ conn. join_mesh host c fuel conn meta arn p)
                (λ conn _. join_mesh-Ends conn meta arn p)))
