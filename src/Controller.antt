-- ===== src/Controller.antt =====
-- controller: ECS tasks, ACL tokens and service registrations are listed, and what belongs to tasks
-- that are gone is removed.
pub mod Found
pub mod Complete
pub mod Created
pub mod Returns
pub mod Deletion
pub mod LastError
pub mod Env
pub mod Ecs
pub mod Acl
pub mod Services
pub mod Lister
pub mod Reconcile
pub mod Namespaces
pub mod Pass
pub mod Listed
pub mod ListedServices
pub mod Safety
pub mod Justified
pub mod Removal
