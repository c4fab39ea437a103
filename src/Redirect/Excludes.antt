-- ===== src/Redirect/Excludes.antt =====
-- What the iptables configuration of internal/redirecttraffic leaves out of the redirection.
use mathlib.Core.Path.{subst}
use consul_ecs.Base.{
  ℕ, ◌≡◌, ◌≢◌, refl, ◌||◌, String, true, false, List, [], ◌∷◌, ◌++◌, map, some, ok, err, Error,
  arith, contains, nat_eq, Bool, ◌==◌, Bool-cases, contains-append, Result-cases, inl, inr, eq_refl,
}
use consul_ecs.Base.Decimal.{itoa}
use consul_ecs.Consul.{AgentService, ConnectProxy, ExposedPath}
use consul_ecs.Config.Types.{Config}
use consul_ecs.Redirect.{
  Iptables, IptablesConfig, RedirectProxyConfig, default_health_sync_process_uid, new,
  bind_addr_port, expose_ports, config_with, config_from, iptables_config,
}

-- The number is in the list.
abbrev pub has : List ℕ → ℕ → Bool
has [] n = false
has (x ∷ xs) n = nat_eq x n || has xs n

-- A path is exposed at the port.
abbrev pub exposes : List ExposedPath → ℕ → Bool
exposes [] n = false
exposes (p ∷ paths) n = nat_eq p.listener_port n || exposes paths n

-- The number is among the texts.
abbrev pub IsExcluded : List String → ℕ → Type 0
IsExcluded texts n = contains texts (itoa n) ≡ true

same_text : (x n : ℕ) → nat_eq x n ≡ true → (itoa x == itoa n) ≡ true
same_text x n e =
    let same : x ≡ n = ground arith in
    subst (λ m. (itoa x == itoa m) ≡ true) same (eq_refl (itoa x))

has-IsExcluded : (ns : List ℕ) (n : ℕ) → has ns n ≡ true → IsExcluded (map itoa ns) n
has-IsExcluded [] n h = cc
has-IsExcluded (x ∷ ns) n h = elim (Bool-cases (nat_eq x n)) [
  | inl same ↦ ground (arith, same_text x n same)
  | inr other ↦ ground (arith, other, has-IsExcluded ns n)
]

exposes-IsExcluded :
    (paths : List ExposedPath) (n : ℕ)
    → exposes paths n ≡ true
    → n ≢ 0
    → IsExcluded (expose_ports paths) n
unfolding expose_ports
exposes-IsExcluded [] n h nonzero = cc
exposes-IsExcluded (p ∷ paths) n h nonzero = elim (Bool-cases (nat_eq p.listener_port n)) [
  | inl same ↦ ground (arith, same_text p.listener_port n same)
  | inr other ↦ ground (arith, other, exposes-IsExcluded paths n)
]

has-append : (xs ys : List ℕ) (n : ℕ) → has (xs ++ ys) n ≡ (has xs n || has ys n)
has-append [] ys n = refl
has-append (x ∷ xs) ys n = ground (arith, has-append xs ys n)

contains-append_last :
    (xs ys : List String) (s : String) → contains ys s ≡ true → contains (xs ++ ys) s ≡ true
contains-append_last xs ys s h = ground (arith, contains-append xs ys s)

contains-append_first :
    (xs ys zs us : List String) (s : String)
    → contains xs s ≡ true
    → contains (xs ++ ys ++ zs ++ us) s ≡ true
contains-append_first xs ys zs us s h = ground (
  arith,
  contains-append (xs ++ ys ++ zs) us s,
  contains-append (xs ++ ys) zs s,
  contains-append xs ys s,
)

ok_injective : {A : Type 0} {a b : A} → ok a ≡ ok b → a ≡ b
ok_injective e = cc

some_injective : {A : Type 0} {a b : A} → some a ≡ some b → a ≡ b
some_injective e = cc

module _ (t : Iptables) (c : Config) (svc : AgentService) (proxy : ConnectProxy)
    (health_check_port : ℕ) where
  -- What may reach the task, and leave it, without the proxy.
  abbrev pub Excludes : IptablesConfig → Type 0
  Excludes cfg =
      ((n : ℕ)
        → has c.transparent_proxy.exclude_inbound_ports n ≡ true
        → IsExcluded cfg.exclude_inbound_ports n)
      × IsExcluded cfg.exclude_inbound_ports health_check_port
      × ((n : ℕ)
          → exposes proxy.expose.paths n ≡ true
          → n ≢ 0
          → IsExcluded cfg.exclude_inbound_ports n)
      × ((n : ℕ)
          → has c.transparent_proxy.exclude_outbound_ports n ≡ true
          → IsExcluded cfg.exclude_outbound_ports n)
      × (contains cfg.exclude_uids default_health_sync_process_uid ≡ true)

  config_with-Excludes :
      (tr : RedirectProxyConfig) (prometheus stats : List String)
      → Excludes
          (config_with t (new c (some svc) (health_check_port ∷ [])) svc proxy tr prometheus stats)
  unfolding config_with new
  config_with-Excludes tr prometheus stats =
      let ports = c.transparent_proxy.exclude_inbound_ports in
      let first = map itoa (ports ++ health_check_port ∷ []) in
      let exposed = expose_ports proxy.expose.paths in
      let inbound : (n : ℕ)
          → has (ports ++ health_check_port ∷ []) n ≡ true
          → IsExcluded (first ++ prometheus ++ stats ++ exposed) n =
        λ n h.
          contains-append_first first prometheus stats exposed (itoa n)
            (has-IsExcluded (ports ++ health_check_port ∷ []) n h) in
      (
        λ n h. inbound n (ground (arith, has-append ports (health_check_port ∷ []) n)),
        inbound health_check_port
            (ground (arith, has-append ports (health_check_port ∷ []) health_check_port)),
        λ n h nonzero.
            contains-append_last (first ++ prometheus ++ stats) exposed (itoa n)
              (exposes-IsExcluded proxy.expose.paths n h nonzero),
        λ n h. has-IsExcluded c.transparent_proxy.exclude_outbound_ports n h,
        contains-append_last c.transparent_proxy.exclude_uids (default_health_sync_process_uid ∷ [])
            default_health_sync_process_uid refl,
      )

  config_from-Excludes :
      (tr : RedirectProxyConfig) (cfg : IptablesConfig)
      → config_from t (new c (some svc) (health_check_port ∷ [])) svc proxy tr ≡ ok cfg
      → Excludes cfg
  unfolding config_from
  config_from-Excludes tr cfg e =
      let settings = new c (some svc) (health_check_port ∷ []) in
      elim (Result-cases (bind_addr_port t "envoy_prometheus_bind_addr" tr.prometheus_bind_addr)) [
        | inl (x, failed) ↦ absurd (ground (arith, e, failed))
        | inr (prometheus, p) ↦
            elim (Result-cases (bind_addr_port t "envoy_stats_bind_addr" tr.stats_bind_addr)) [
              | inl (x, failed) ↦ absurd (ground (arith, e, p, failed))
              | inr (stats, q) ↦
                  let same : config_with t settings svc proxy tr prometheus stats ≡ cfg =
                    ok_injective (rw (p, q, config_from) at e) in
                  subst Excludes same (config_with-Excludes tr prometheus stats)
            ]
      ]

  config_failed :
      (cfg : IptablesConfig) (x : Error)
      → svc.proxy ≡ some proxy
      → t.weak_decode proxy.config ≡ err x
      → iptables_config t (new c (some svc) (health_check_port ∷ [])) ≢ some (ok cfg)
  unfolding iptables_config new
  config_failed cfg x is failed e =
      let no = rw (is, failed, iptables_config) at e in ground (arith, no)

  config_made :
      (cfg : IptablesConfig) (decoded : RedirectProxyConfig)
      → svc.proxy ≡ some proxy
      → t.weak_decode proxy.config ≡ ok decoded
      → iptables_config t (new c (some svc) (health_check_port ∷ [])) ≡ some (ok cfg)
      → config_from t (new c (some svc) (health_check_port ∷ [])) svc proxy decoded ≡ ok cfg
  unfolding iptables_config new
  config_made cfg decoded is d e = some_injective (rw (is, d, iptables_config) at e)

-- If the rules for a proxy can be made, then all that must go past the proxy is left out of the
-- redirection: the inbound ports of the configuration, the port of the health check, the listener
-- ports of the exposed paths, the outbound ports of the configuration, and health-sync.
pub iptables_config-Excludes :
    (t : Iptables) (c : Config) (svc : AgentService) (proxy : ConnectProxy) (health_check_port : ℕ)
    (cfg : IptablesConfig)
    → svc.proxy ≡ some proxy
    → iptables_config t (new c (some svc) (health_check_port ∷ [])) ≡ some (ok cfg)
    → Excludes t c svc proxy health_check_port cfg
iptables_config-Excludes t c svc proxy health_check_port cfg is e =
    elim (Result-cases (t.weak_decode proxy.config)) [
      | inl (x, failed) ↦ absurd (config_failed t c svc proxy health_check_port cfg x is failed e)
      | inr (decoded, d) ↦
          config_from-Excludes t c svc proxy health_check_port decoded cfg
            (config_made t c svc proxy health_check_port cfg decoded is d e)
    ]
