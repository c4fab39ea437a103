-- ===== src/Task/Stopped.antt =====
-- `HasContainerStopped` of awsutil/awsutil.go.
use consul_ecs.Base.{◌↔◌, ◌≡◌, true, All, String, arith, List, [], ◌∷◌, eq_iff}
use consul_ecs.Task.{
  TaskContainer, TaskMeta, status_stopped, has_stopped, none_running, has_container_stopped,
}

-- The container, where it has the given name, has stopped and is meant to.
abbrev pub StoppedIfNamed : String → TaskContainer → Type 0
StoppedIfNamed name c =
    c.name ≡ name → (c.desired_status ≡ status_stopped) × (c.known_status ≡ status_stopped)

none_running_iff :
    (name : String) (cs : List TaskContainer)
    → (none_running name cs ≡ true) ↔ All (StoppedIfNamed name) cs
unfolding none_running has_stopped
none_running_iff name [] = ground arith
none_running_iff name (c ∷ cs) = ground (
  arith,
  none_running_iff name cs,
  eq_iff c.name name,
  eq_iff c.desired_status status_stopped,
  eq_iff c.known_status status_stopped,
)

-- `HasContainerStopped` says yes exactly when every container of that name in the metadata is
-- both desired and known to be stopped; a name that does not occur counts as stopped.
pub has_container_stopped_iff :
    (e : TaskMeta) (name : String)
    → (has_container_stopped e name ≡ true) ↔ All (StoppedIfNamed name) e.containers
unfolding has_container_stopped
has_container_stopped_iff e name = none_running_iff name e.containers
