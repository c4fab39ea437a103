-- ===== src/MeshInit/Written.antt =====
-- What has been written when mesh-init returns without an error, and that the files cost no calls.
use mathlib.Core.Path.{subst}
use consul_ecs.Base.{
  ℕ, ◌≡◌, String, List, [], ◌∷◌, ◌++◌, Option, none, some, All, arith, inl, inr, ok, Option-cases,
  Result-cases, Bool-cases,
}
use consul_ecs.Consul.{AgentService, CatalogRegistration}
use consul_ecs.Config.Types.{Config}
use consul_ecs.Config.Settings.{consul_dns_enabled, transparent_proxy_enabled, LoginCredential}
use consul_ecs.MeshInit.Host.{
  Host, Progress, Outcome, finished, retrying, panics, in_turn, and_then,
}
use consul_ecs.MeshInit.Files.{
  write, wrapped, dataplane_config, dataplane_config_file_name, write_rpc_ca_cert_to_shared_volume,
  generate_and_write_dataplane_config, configure_dns, get_proxy_service_registration, proxy_query,
  redirect_to, apply_traffic_redirection_rules,
}
use consul_ecs.MeshInit.Run.{dns_step, redirection_step, write_files}
use consul_ecs.Dataplane.Encode.{generate_json}
use consul_ecs.Redirect.{new, apply}
use consul_ecs.Config.Registration.{get_health_check_port}
use consul_ecs.Dns.{configure_consul_dns}
use consul_ecs.MeshInit.Holds.{
  After, Holds, and_then-Holds, with-Holds, finished-Holds, Longer, Longer-refl, Longer-one,
  Longer-trans,
}
use consul_ecs.Dataplane.{DataplaneConfig}
use consul_ecs.MeshInit.Holds.{Holds-map}

-- The configuration for the dataplane was made and written, for some path of a CA certificate.
abbrev pub IsWritten : Host → Config → CatalogRegistration → Option LoginCredential → Type 0
IsWritten host c proxy creds =
    (file : String) × (cfg : DataplaneConfig) × (json : String) × (dataplane_config host c proxy
        creds file (consul_dns_enabled c)
      ≡ some cfg)
    × (host.marshal (generate_json cfg) ≡ ok json)
    × (host.write_file (host.path_join c.bootstrap_dir dataplane_config_file_name) json ≡ none)

module _ (host : Host) (c : Config) (fuel : ℕ) where
  write_rpc_ca_cert-history :
      (p : Progress) → (write_rpc_ca_cert_to_shared_volume host c p).1.history ≡ p.history
  unfolding write_rpc_ca_cert_to_shared_volume write
  write_rpc_ca_cert-history p = ground arith

  dns_step-After : (p : Progress) → After p (dns_step host c fuel p)
  unfolding dns_step configure_dns
  dns_step-After p =
      let out = configure_consul_dns host.client_config_from_file host.write_file "" in
      elim (Bool-cases (consul_dns_enabled c)) [
        | inr off ↦ rw (off, dns_step) (Longer-refl p.history)
        | inl on ↦
            rw (on, dns_step)
              (finished-Holds (λ p'. Longer p.history p'.history)
                (wrapped "failed to configure Consul DNS" out.0)
                (record p { files = p.files ++ out.1 }) (Longer-refl p.history))
      ]

  redirect_to-After : (svc : AgentService) (p : Progress) → After p (redirect_to host c svc p)
  unfolding redirect_to
  redirect_to-After svc p = elim (Option-cases c.proxy) [
    | inl missing ↦ rw (missing, redirect_to) tt
    | inr (proxy, is) ↦
        elim (Option-cases (
          apply host.iptables
            (new c (some svc) (get_health_check_port proxy.health_check_port ∷ [])))) [
              | inl bare ↦ rw (is, bare, redirect_to) tt
              | inr ((e, rules), done) ↦
                  rw (is, done, redirect_to)
                    (finished-Holds (λ p'. Longer p.history p'.history)
                      (wrapped "failed to setup traffic redirection rules" e)
                      (record p { rules = p.rules ++ rules }) (Longer-refl p.history))
            ]
  ]

  After-trans :
      (p p' : Progress) (m : Outcome) → Longer p.history p'.history → After p' m → After p m
  After-trans p p' (finished none q) longer a = Longer-trans p.history p'.history q.history longer a
  After-trans p p' (finished (some e) q) longer a = tt
  After-trans p p' retrying longer a = a
  After-trans p p' panics longer a = tt

  redirection_step-After :
      (proxy : CatalogRegistration) (arn : String) (p : Progress)
      → After p (redirection_step host c fuel proxy arn p)
  unfolding redirection_step apply_traffic_redirection_rules
  redirection_step-After proxy arn p = elim (Bool-cases (transparent_proxy_enabled c)) [
    | inr off ↦ rw (off, redirection_step) (Longer-refl p.history)
    | inl on ↦ elim (Option-cases proxy.service) [
      | inl missing ↦ rw (on, missing, redirection_step, apply_traffic_redirection_rules) tt
      | inr (service, is) ↦
          let query = proxy_query host c arn service.id in
          let p' : Progress = record p { history = p.history ++ query ∷ [] } in
          rw (on, is, redirection_step, apply_traffic_redirection_rules)
            (with-Holds (λ q. Longer p.history q.history)
              (get_proxy_service_registration host c arn service.id p.history) p'
              (λ svc. redirect_to host c svc p')
              (λ svc _.
                After-trans p p' (redirect_to host c svc p') (Longer-one p.history query)
                  (redirect_to-After svc p')))
    ]
  ]

  pub in_turn-After :
      (steps : List (Progress → Outcome))
      → All (λ step. (p : Progress) → After p (step p)) steps
      → (p : Progress) → After p (in_turn steps p)
  in_turn-After [] a p = Longer-refl p.history
  in_turn-After (step ∷ steps) a p =
      and_then-Holds (λ p'. Longer p.history p'.history) (λ p'. Longer p.history p'.history)
        (step p) (in_turn steps) (a.0 p)
        (λ p' longer. After-trans p p' (in_turn steps p') longer (in_turn-After steps a.1 p'))

  dataplane_config-IsWritten :
      (proxy : CatalogRegistration) (creds : Option LoginCredential) (file : String) (p : Progress)
      → Holds
          (λ q. Longer p.history q.history × IsWritten host c proxy creds)
          (generate_and_write_dataplane_config host c proxy creds file (consul_dns_enabled c) p)
  unfolding generate_and_write_dataplane_config write
  dataplane_config-IsWritten proxy creds file p =
      elim (Option-cases (dataplane_config host c proxy creds file (consul_dns_enabled c))) [
        | inl missing ↦ rw (missing, generate_and_write_dataplane_config) tt
        | inr (cfg, is) ↦ elim (Result-cases (host.marshal (generate_json cfg))) [
          | inl (e, failed) ↦ rw (is, failed, generate_and_write_dataplane_config) tt
          | inr (json, made) ↦
              elim (Option-cases (
                host.write_file (host.path_join c.bootstrap_dir dataplane_config_file_name) json)) [
                  | inr (e, failed) ↦ rw (is, made, failed, generate_and_write_dataplane_config) tt
                  | inl done ↦
                      rw (is, made, done, generate_and_write_dataplane_config)
                        (Longer-refl p.history, (file, cfg, json, is, made, done))
                ]
        ]
      ]

  -- What a step has done stays, if the later ones only add calls.
  pub and_then-After :
      (Done : Type 0) (p : Progress) (m : Outcome) (k : Progress → Outcome)
      → Holds (λ q. Longer p.history q.history × Done) m
      → ((q : Progress) → After q (k q))
      → Holds (λ q. Longer p.history q.history × Done) (and_then m k)
  and_then-After Done p m k first rest =
      and_then-Holds (λ q. Longer p.history q.history × Done)
        (λ q. Longer p.history q.history × Done) m k first
        (λ q has.
          Holds-map (λ q'. Longer q.history q'.history) (λ q'. Longer p.history q'.history × Done)
            (k q) (rest q)
            (λ q' longer. (Longer-trans p.history q.history q'.history has.0 longer, has.1)))

  -- What the last step does, it does behind steps that only add calls.
  pub in_turn_last :
      (Done : Type 0) (steps : List (Progress → Outcome)) (last : Progress → Outcome)
      → All (λ step. (p : Progress) → After p (step p)) steps
      → ((p : Progress) → Holds (λ q. Longer p.history q.history × Done) (last p))
      → (p : Progress)
      → Holds (λ q. Longer p.history q.history × Done) (in_turn (steps ++ last ∷ []) p)
  in_turn_last Done [] last a does p =
      and_then-After Done p (last p) (in_turn []) (does p) (λ q. Longer-refl q.history)
  in_turn_last Done (step ∷ steps) last a does p =
      and_then-Holds (λ q. Longer p.history q.history × Done) (λ q. Longer p.history q.history)
        (step p) (in_turn (steps ++ last ∷ [])) (a.0 p)
        (λ q longer.
          Holds-map (λ q'. Longer q.history q'.history × Done)
            (λ q'. Longer p.history q'.history × Done) (in_turn (steps ++ last ∷ []) q)
            (in_turn_last Done steps last a.1 does q)
            (λ q' has. (Longer-trans p.history q.history q'.history longer has.0, has.1)))

  pub write_files-IsWritten :
      (creds : Option LoginCredential) (proxy : CatalogRegistration) (arn : String) (p : Progress)
      → Holds
          (λ q. Longer p.history q.history × IsWritten host c proxy creds)
          (write_files host c fuel creds proxy arn p)
  unfolding write_files
  write_files-IsWritten creds proxy arn p =
      let out = write_rpc_ca_cert_to_shared_volume host c p in
      let same = write_rpc_ca_cert-history p in
      let first = λ (file : String).
        generate_and_write_dataplane_config host c proxy creds file (consul_dns_enabled c) in
      let others : List (Progress → Outcome) =
        dns_step host c fuel ∷ redirection_step host c fuel proxy arn ∷ [] in
      with-Holds (λ q. Longer p.history q.history × IsWritten host c proxy creds) out.0 out.1
        (λ file. in_turn (first file ∷ others) out.1)
        (λ file _.
          subst
            (λ h.
              Holds (λ q. Longer h q.history × IsWritten host c proxy creds)
                (in_turn (first file ∷ others) out.1))
            same
            (and_then-After (IsWritten host c proxy creds) out.1 (first file out.1) (in_turn others)
              (dataplane_config-IsWritten proxy creds file out.1)
              (in_turn-After others (dns_step-After, (redirection_step-After proxy arn, tt)))))
