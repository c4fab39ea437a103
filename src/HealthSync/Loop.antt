-- ===== src/HealthSync/Loop.antt =====
-- subcommand/health-sync/command.go: the reconciliation loop of `realRun`, one event at a time, and
-- what it does at the end. `select` takes the events in any order, so a run is any list of them.
use consul_ecs.Base.{
  String, Bool, true, List, [], ◌∷◌, ◌++◌, Option, none, Result, ok, err, Error, Append, collect,
  if◌then◌else◌,
}
use consul_ecs.Task.{TaskMeta, task_id}
use consul_ecs.Client.{Client, Call, connect, deregister, logout, send}
use consul_ecs.Config.Types.{Config, consul_dataplane_container_name}
use consul_ecs.Config.Settings.{is_gateway, gateway_field}
use consul_ecs.HealthSync.Naming.{
  construct_service_name, make_service_id, make_proxy_svc_id_and_name,
}
use consul_ecs.HealthSync.Checks.{State, set_checks_critical, sync_checks}

-- The cases of the `select`, with what they receive: the poll of the task metadata, the client for
-- another server (or the error of setting it up), SIGTERM, the end of the dataplane container.
pub data Event : Type 0 where
  tick : Result TaskMeta → Event
  server_changed : Result String → Event
  sigterm dataplane_done : Event

pub record Running : Type 0 where
  pub shutting_down : Bool
  pub state : State

pub data Outcome : Type 0 where
  running : Running → Outcome
  returned : Option Error → State → Outcome

-- The containers whose health is synced: the configured ones and the dataplane.
abbrev pub health_sync_containers : Config → List String
health_sync_containers c = c.health_sync_containers ++ consul_dataplane_container_name ∷ []

-- A call that returns only an error, from the state of the loop.
abbrev pub call_api : Client → Call → State → Option Error × State
call_api api call s = let (e, h) = send api call s.calls in (e, record s { calls = h })

abbrev pub deregistration : String → String → String → String → Call
deregistration node service_id namespace partition =
    deregister
      (record {
        node = node;
        service_id = service_id;
        namespace = namespace;
        partition = partition;
      })
      none

module _ (api : Client) (append : Append) (c : Config) (cluster_arn : String)
    (meta : TaskMeta) where
  abbrev pub service_id : String
  service_id = make_service_id (construct_service_name c meta.family) (task_id meta)

  abbrev pub service_deregistration : Call
  service_deregistration =
      deregistration cluster_arn service_id c.service.namespace c.service.partition

  abbrev pub proxy_deregistration : Call
  proxy_deregistration =
      deregistration cluster_arn
        (make_proxy_svc_id_and_name service_id (construct_service_name c meta.family)).0
        c.service.namespace c.service.partition

  abbrev pub gateway_deregistration : Call
  gateway_deregistration =
      deregistration cluster_arn service_id (gateway_field c.gateway (λ g. g.namespace))
        (gateway_field c.gateway (λ g. g.partition))

  -- The proxy is deregistered whether or not the service was.
  unfoldable pub deregister_service_and_proxy : State → Option Error × State
  deregister_service_and_proxy s =
      let (e1, s1) = call_api api service_deregistration s in
      let (e2, s2) = call_api api proxy_deregistration s1 in
      (collect append (collect append none e1) e2, s2)

  unfoldable pub deregister_gateway_proxy : State → Option Error × State
  deregister_gateway_proxy = call_api api gateway_deregistration

  -- The last case of the `select`.
  unfoldable pub terminate : State → Option Error × State
  terminate s =
      let (e1, s1) =
        if is_gateway c then deregister_gateway_proxy s else deregister_service_and_proxy s in
      let result = collect append none e1 in
      let (e2, s2) = call_api api logout s1 in
      if c.consul_login.enabled then (collect append result e2, s2) else (result, s1)

  unfoldable pub step : Running → Event → Outcome
  step r (tick poll) =
      if r.shutting_down
      then running r
      else running (record r {
        state = sync_checks api c cluster_arn poll (health_sync_containers c) r.state;
      })
  step r (server_changed (err _)) = running r
  step r (server_changed (ok address)) =
      running
        (record r { state = record (r.state) { calls = r.state.calls ++ connect address ∷ [] } })
  step r sigterm = running (record {
    shutting_down = true;
    state =
        (set_checks_critical api c cluster_arn append meta (health_sync_containers c) r.state).1;
  })
  step r dataplane_done = let (e, s) = terminate r.state in returned e s

  -- The `for` loop over the events that arrive.
  unfoldable pub run : Running → List Event → Outcome
  run r [] = running r
  run r (e ∷ es) = elim (step r e) [ running r' ↦ run r' es | returned x s ↦ returned x s ]
