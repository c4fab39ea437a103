-- ===== src/Upserts/Anonymous.antt =====
-- `consulDatacenterList` and `upsertAnonymousTokenPolicy`.
use consul_ecs.Base.{
  ◌<>◌, ◌==◌, not, ◌&&◌, String, [], ◌∷◌, ◌++◌, Option, none, some, Result, ok, err, Error, errorf,
  wrapf, contains, if◌then◌else◌,
}
use consul_ecs.Consul.{AclPolicy, QueryOptions, WriteOptions}
use consul_ecs.Consul.Acl.{FullToken}
use consul_ecs.Client.{
  Client, History, send, token_read, token_update, policy_read_by_name, policy_create,
}
use consul_ecs.Config.Types.{Config}
use consul_ecs.Controller.Ecs.{default_partition, default_namespace}
use consul_ecs.Upserts.Env.{
  Datacenters, AgentConfig, anon_token_id, anon_policy_name, anon_policy_desc,
}
use consul_ecs.Upserts.Policies.{found, attempt}
use consul_ecs.Upserts.Rules.{anonymous_policy_rules}

-- What `%+v` prints for an `AgentConfig`.
print_datacenters : Datacenters → String
print_datacenters d =
    "{Datacenter:" <> d.datacenter <> " PrimaryDatacenter:" <> d.primary_datacenter <> "}"

print_agent_config : AgentConfig → String
unfolding print_datacenters
print_agent_config a =
    "{Config:"
    <> print_datacenters a.config
    <> " DebugConfig:"
    <> print_datacenters a.debug_config
    <> "}"

unfoldable pub consul_datacenter_list : AgentConfig → Result (String × String)
unfolding print_agent_config
consul_datacenter_list a =
    if a.config.datacenter == ""
    then err
        (errorf ("agent config does not contain Config.Datacenter key: " <> print_agent_config a))
    else if a.config.primary_datacenter == "" && a.debug_config.primary_datacenter == ""
    then err (
        errorf (
          "both Config.PrimaryDatacenter and DebugConfig.PrimaryDatacenter are empty: "
          <> print_agent_config a))
    else if not (a.config.primary_datacenter == "")
    then ok (a.config.datacenter, a.config.primary_datacenter)
    else ok (a.config.datacenter, a.debug_config.primary_datacenter)

-- `qopts` and `wopts`: nil without partitions.
unfoldable pub anonymous_query_options : Config → QueryOptions
anonymous_query_options c = record {
  namespace = if c.controller.partitions_enabled then default_partition else "";
  partition = if c.controller.partitions_enabled then default_namespace else "";
  filter = "";
}

unfoldable pub anonymous_write_options : Config → WriteOptions
anonymous_write_options c = record {
  namespace = if c.controller.partitions_enabled then default_partition else "";
  partition = if c.controller.partitions_enabled then default_namespace else "";
}

unfoldable pub anonymous_policy : Config → AclPolicy
unfolding anonymous_policy_rules
anonymous_policy c = record {
  name = anon_policy_name;
  description = anon_policy_desc;
  rules = anonymous_policy_rules c;
  namespace = "";
  partition = "";
}

module _ (api : Client) (c : Config) where
  -- The update of the token, with the policy behind those that it has.
  unfoldable pub attach_policy : FullToken → String → History → Option Error × History
  attach_policy t name =
      attempt api "failed to update anonymous token"
        (token_update (record t { policies = t.policies ++ name ∷ [] }) (anonymous_write_options c))

  -- The policy, found or created, and then the token.
  unfoldable pub ensure_anonymous_policy : FullToken → History → Option Error × History
  unfolding anonymous_policy attach_policy anonymous_query_options anonymous_write_options
  ensure_anonymous_policy t h =
      let h1 = h ++ policy_read_by_name anon_policy_name (anonymous_query_options c) ∷ [] in
      elim (found (api.policy h anon_policy_name (anonymous_query_options c))) [
        | err e ↦ (some (wrapf "failed to read anonymous token policy" e), h1)
        | ok (some policy) ↦ attach_policy t policy.name h1
        | ok none ↦
            let (e, h2) =
              send api (policy_create (anonymous_policy c) (some (anonymous_write_options c))) h1 in
            elim e [
              | some x ↦ (some (wrapf "failed to create anonymous token policy" x), h2)
              | none ↦ attach_policy t (api.created_policy h1 (anonymous_policy c)).name h2
            ]
      ]

  unfoldable pub upsert_anonymous_token_policy : AgentConfig → History → Option Error × History
  unfolding consul_datacenter_list ensure_anonymous_policy anonymous_query_options
  upsert_anonymous_token_policy a h = elim (consul_datacenter_list a) [
    | err e ↦ (some (wrapf "failed to list Consul datacenters" e), h)
    | ok (consul_dc, primary_dc) ↦
        if not (consul_dc == primary_dc)
        then (none, h)
        else let h1 = h ++ token_read anon_token_id (anonymous_query_options c) ∷ [] in
          elim (api.token h anon_token_id (anonymous_query_options c)) [
            | err e ↦ (some (wrapf "failed to read anonymous token" e), h1)
            | ok t ↦
                if contains t.policies anon_policy_name
                then (none, h1)
                else ensure_anonymous_policy t h1
          ]
  ]
