-- ===== src/Controller/Namespaces.antt =====
-- `ReconcileNamespaces` of controller/resource.go, and one pass of controller/controller.go.
use consul_ecs.Base.{
  ◌<>◌, ◌==◌, Bool, String, List, [], ◌∷◌, ◌++◌, contains, Option, none, some, Result, ok, err,
  Error, wrapf, message, collect, if◌then◌else◌,
}
use consul_ecs.Base.Text.{contains_text}
use consul_ecs.Consul.{Namespace, AclPolicy, QueryOptions, WriteOptions}
use consul_ecs.Client.{
  Call, History, namespace_list, namespace_read, namespace_create, namespace_update,
  policy_read_by_name, policy_create, send,
}
use consul_ecs.Controller.Env.{TaskState, Lister, Env, partitions_enabled}
use consul_ecs.Controller.Ecs.{default_namespace}

abbrev pub xns_policy_name : String
xns_policy_name = "cross-namespace-read"

abbrev xns_policy_desc : String
xns_policy_desc = "Allow service and node reads across namespaces within the partition"

unfoldable pub xns_policy_rules : String → String
xns_policy_rules partition =
    "partition \"" <> partition
    <> "\" {\n  namespace_prefix \"\" {\n    service_prefix \"\" {\n      policy = \"read\"\n    }\n    node_prefix \"\" {\n      policy = \"read\"\n    }\n  }\n}"

-- `TaskState.Namespace`
unfoldable pub namespace_of : TaskState → String
namespace_of t = if t.ecs_task_found then t.ns else ""

unfoldable pub is_acl_not_found_error : Error → Bool
is_acl_not_found_error e = contains_text (message e) "ACL not found"

abbrev pub in_partition : Lister → String → QueryOptions
in_partition s namespace = record { namespace = namespace; partition = s.partition; filter = "" }

abbrev pub write_options : Lister → WriteOptions
write_options s = record { namespace = ""; partition = s.partition }

-- The set of the namespaces of the resources, each name once.
unfoldable pub wanted_namespaces : List TaskState → List String → List String
unfolding namespace_of
wanted_namespaces [] ns = ns
wanted_namespaces (r ∷ resources) ns = wanted_namespaces resources (
    if namespace_of r == ""
    then ns
    else if contains ns (namespace_of r)
    then ns
    else ns ++ namespace_of r ∷ [])

abbrev pub names : List Namespace → List String
names [] = []
names (x ∷ xs) = x.name ∷ names xs

-- `for _, n := range existingNS { delete(ns, n.Name) }`
unfoldable pub without : List Namespace → List String → List String
without existing [] = []
without existing (n ∷ ns) =
    let rest = without existing ns in if contains (names existing) n then rest else n ∷ rest

abbrev pub namespace_creation : Lister → String → Call
namespace_creation s n =
    namespace_create (record { name = n; policy_defaults = some (xns_policy_name ∷ []) })
      (write_options s)

-- Every namespace has its turn, whatever the errors.
unfoldable pub create_each :
    Env → Lister → List String → Option Error → History → Option Error × History
create_each env s [] result h = (result, h)
create_each env s (n ∷ ns) result h =
    let (e, h') = send env.api (namespace_creation s n) h in
    create_each env s ns (collect env.append result e) h'

unfoldable pub create_namespaces : Env → Lister → List TaskState → History → Option Error × History
create_namespaces env s resources h =
    let opts = in_partition s "" in
    elim (env.api.namespaces h opts) [
      | err e ↦ (some e, h ++ namespace_list opts ∷ [])
      | ok existing ↦
          create_each env s (without existing (wanted_namespaces resources [])) none
            (h ++ namespace_list opts ∷ [])
    ]

-- The policy, if it was found; an error that says so counts as not found.
abbrev pub found_policy : Result (Option AclPolicy) → Result (Option AclPolicy)
found_policy (ok p) = ok p
found_policy (err e) = if is_acl_not_found_error e then ok none else err e

unfoldable pub ensure_policy : Env → Lister → History → Option Error × History
ensure_policy env s h =
    let opts = in_partition s default_namespace in
    let h1 = h ++ policy_read_by_name xns_policy_name opts ∷ [] in
    elim (found_policy (env.api.policy h xns_policy_name opts)) [
      | err e ↦ (some (wrapf "reading cross-namespace policy" e), h1)
      | ok (some _) ↦ (none, h1)
      | ok none ↦
          let (e, h2) =
            send env.api
              (policy_create
                (record {
                  name = xns_policy_name;
                  description = xns_policy_desc;
                  rules = xns_policy_rules s.partition;
                  namespace = default_namespace;
                  partition = s.partition;
                })
                none)
              h1 in
          (elim e [ none ↦ none | some x ↦ some (wrapf "creating cross-namespace policy" x) ], h2)
    ]

abbrev pub policy_defaults_of : Namespace → List String
policy_defaults_of ns = elim ns.policy_defaults [ none ↦ [] | some ps ↦ ps ]

unfoldable pub link_policy : Env → Lister → History → Option Error × History
link_policy env s h =
    let opts = in_partition s "" in
    let h1 = h ++ namespace_read default_namespace opts ∷ [] in
    elim (env.api.namespace h default_namespace opts) [
      | err e ↦ (some (wrapf "fetching default namespace" e), h1)
      | ok ns ↦
          let defaults = policy_defaults_of ns in
          let (e, h2) =
            send env.api
              (namespace_update
                (record ns { policy_defaults = some (defaults ++ xns_policy_name ∷ []) })
                (write_options s))
              h1 in
          if contains defaults xns_policy_name then (none, h1) else (
            elim e [
              | none ↦ none
              | some x ↦ some (wrapf "updating default namespace with cross-namespace policy" x)
            ],
            h2,
          )
    ]

-- `if err := m; err != nil { return err }; k`
abbrev pub and_then :
    Option Error × History → (History → Option Error × History) → Option Error × History
and_then (some e, h) k = (some e, h)
and_then (none, h) k = k h

unfoldable pub upsert_cross_ns_policy : Env → Lister → History → Option Error × History
upsert_cross_ns_policy env s h = and_then (ensure_policy env s h) (link_policy env s)

unfoldable pub reconcile_namespaces :
    Env → Lister → List TaskState → History → Option Error × History
reconcile_namespaces env s resources h =
    if partitions_enabled s.partition
    then elim (env.setup h) [
      | some e ↦ (some e, h)
      | none ↦ and_then (upsert_cross_ns_policy env s h) (create_namespaces env s resources)
    ]
    else (none, h)
