-- ===== src/Lib.antt =====
-- consul-ecs: the commands that join ECS tasks to a Consul service mesh.
--
-- The program's parts and how they interact. In each task, mesh-init registers the task's service
-- and its sidecar proxy, or a gateway, with checks that are critical at first. health-sync then reads
-- the task metadata that the ECS agent serves, updates the checks by the health of the containers,
-- marks them critical on SIGTERM, and deregisters the task when the dataplane has ended. A controller
-- beside the tasks lists the tasks of ECS, the ACL tokens and the services of the cluster, removes
-- what belongs to tasks that are gone, and creates the namespaces that tasks ask for; before its
-- first pass it sets up the roles, policies, auth method and binding rules that the tasks log in by.
-- mesh-init also writes the configuration of the dataplane and, for the transparent proxy, resolv.conf
-- and the iptables rules. All read the same configuration. The entry points run the application and
-- Envoy: on SIGTERM the application goes on for a delay, and Envoy until a monitor sees in the task
-- metadata that the application has stopped.
--
-- Which file models which part:
--   Base, Base/*          Go's strings, maps, errors and JSON values, shared lemmas
--   Consul                the structs of Consul's API package that the program sets or reads
--   Client                the Consul servers behind the API client, and the calls made to them
--   Task, Task/*          awsutil/awsutil.go: the task metadata
--   Config/Types          config/types.go: the structs and constants
--   Config/Decode         config/types.go: the UnmarshalJSON methods (decode_*)
--   Config/Registration   config/types.go: the ToConsulType methods (*_to_consul)
--   Config/Settings       config/config.go
--   HealthSync/Naming     subcommand/health-sync/command.go and checks.go: names and IDs
--   HealthSync/Containers subcommand/health-sync/checks.go: the health of containers
--   HealthSync/Fetch      subcommand/health-sync/checks.go: fetchHealthChecks
--   HealthSync/Checks     subcommand/health-sync/checks.go: setChecksCritical, syncChecks
--   HealthSync/Loop       subcommand/health-sync/command.go: the loop of realRun, the deregistrations
--   HealthSync/Start      subcommand/health-sync/command.go: realRun with its set-up
--   MeshInit/Naming       subcommand/mesh-init/command.go and checks.go: names, IDs and checks
--   MeshInit/Registration subcommand/mesh-init/command.go: services and proxies
--   MeshInit/Gateway      subcommand/mesh-init/command.go: gateways
--   MeshInit/Defaults, ServiceDefaults   subcommand/mesh-init/command.go: passive health checks
--   MeshInit/Host, Run    subcommand/mesh-init/command.go: realRun, and what it takes from outside
--   MeshInit/Files        subcommand/mesh-init/command.go: the files, and the traffic redirection
--   Dataplane, Dataplane/Encode   internal/dataplane
--   Dns                   internal/dns/dns.go
--   Redirect              internal/redirecttraffic/redirect_traffic.go
--   Upserts/Env, Rules, Policies, Unique, Methods, Bindings, Anonymous, Resources, Run
--                         subcommand/controller/command.go
--   Controller/Env, Ecs, Acl, Services, Lister, Reconcile, Namespaces   controller/resource.go
--   Controller/Pass       controller/controller.go
--   Entrypoint/App        subcommand/app-entrypoint/command_unix.go
--   Entrypoint/Envoy      subcommand/envoy-entrypoint/command_unix.go
--   Entrypoint/Monitor    subcommand/envoy-entrypoint/task-monitor.go and
--                         subcommand/health-sync/dataplane_monitor.go
-- The other files hold lemmas and theorems on these, and Tests/* runs and examples.
--
-- How state is modelled. A method that calls Consul takes the history of the calls made so far and
-- gives the longer history; what the servers answer is an arbitrary function of that history and of
-- the call, so every answer and every failure is covered, also answers that change from call to call.
-- The checks and statuses that health-sync keeps are a record that is passed on. An `error` is an
-- option, a value with an `error` a result, and multierror.Append any function of this type. The
-- `select` of health-sync takes its events in any order: a run is any list of them.
--
-- Bounds. Ports and counts are natural numbers: the program reads them from JSON and only compares
-- them with 0, hands them on or prints them. The exit codes of processes are signed. ToLower is modelled on ASCII letters, and %q on
-- printable characters. The order in which Go ranges over a map is that of insertion here. The loop
-- over the pages of ListTasks runs on fuel; running out of it is told apart from every result, and one
-- round more than ECS needs to stop giving a next token is enough. ECS answers by the number of the
-- round, so it may answer differently each time. The retries of registrations and of service defaults
-- run on fuel too: one attempt more than the servers let fail is enough. A number is printed with one
-- round of fuel more than its value, and read-itoa of Base/Decimal shows that no digit is lost.
--
-- Parameters, since their code is not in the repository: the Consul servers, ECS, arn.Parse, the
-- creation of bearer tokens by AWS, rootcerts.ConfigureTLS, json.Unmarshal, json.Marshal on JSON values,
-- mapstructure, multierror.Append, the server connection manager, the DNS package, net.SplitHostPort,
-- the iptables package, the files and the environment variables.
--
-- Not modelled: logging and the command line; that a file exists once it is written; the AWS client's
-- own configuration; the validation of the configuration by a JSON schema; and the start of processes.
pub mod Base
pub mod Task
pub mod Consul
pub mod Client
pub mod Config
pub mod HealthSync
pub mod MeshInit
pub mod Controller
pub mod Upserts
pub mod Dataplane
pub mod Dns
pub mod Redirect
pub mod Entrypoint
pub mod Tests
