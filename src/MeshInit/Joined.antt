-- ===== src/MeshInit/Joined.antt =====
-- The task has joined the mesh when mesh-init returns without an error.
use consul_ecs.Base.{ℕ, ◌≡◌, String, Option, some, ok}
use consul_ecs.Task.{TaskMeta, cluster_arn}
use consul_ecs.Consul.{CatalogRegistration}
use consul_ecs.Config.Types.{Config}
use consul_ecs.Config.Settings.{DiscoveryConfig, LoginCredential}
use consul_ecs.MeshInit.Host.{Host, Progress}
use consul_ecs.MeshInit.Run.{registrations, login_creds, connect_servers}
use consul_ecs.MeshInit.Holds.{Holds, IsAccepted}
use consul_ecs.MeshInit.Ready.{IsAcceptedIfAny}
use consul_ecs.MeshInit.Written.{IsWritten}

module _ (host : Host) (c : Config) (fuel : ℕ) where
  -- Consul has accepted both registrations, and the dataplane's configuration is written.
  abbrev AreDone :
      Option LoginCredential → Option CatalogRegistration → CatalogRegistration → Progress → Type 0
  AreDone creds service proxy p =
      IsAcceptedIfAny host.api service p.history
      × IsAccepted host.api proxy p.history
      × IsWritten host c proxy creds

  -- The registrations and the credentials are those of the task's metadata.
  abbrev pub HasJoined : Progress → Type 0
  HasJoined p =
      (meta : TaskMeta) × (arn : String) × (conn : DiscoveryConfig) × (service : Option
        CatalogRegistration)
      × (proxy : CatalogRegistration) × (cluster_arn meta ≡ ok arn)
      × (connect_servers host c fuel meta ≡ ok conn)
      × (registrations c (host.env "AWS_REGION") meta arn ≡ some (service, proxy))
      × AreDone (login_creds c conn) service proxy p
