-- ===== src/Upserts/Writes.antt =====
-- What the calls of `upsertConsulResources` may be, and the actions that make only such calls.
use consul_ecs.Base.{
  ◌≡◌, refl, String, arith, ok, Bool, true, false, List, [], ◌∷◌, ◌++◌, Option, some, Error, All,
  if◌then◌else◌, inl, inr, ◌⊎◌, Option-cases,
}
use consul_ecs.Client.{
  Client, Call, register, agent_self, partition_list, partition_create, policy_read_by_name,
  policy_create, role_read_by_name, role_create, role_update, auth_method_read, auth_method_create,
  auth_method_update, binding_rule_list, binding_rule_create, binding_rule_update, token_read,
  token_update, History, Extends, Extends-refl, Extends-one, Extends-trans,
}
use consul_ecs.Config.Types.{Config}
use consul_ecs.Controller.Namespaces.{and_then}
use consul_ecs.Upserts.Env.{write_options}
use consul_ecs.Upserts.Anonymous.{anonymous_write_options}
use consul_ecs.Consul.{QueryOptions, WriteOptions}
use consul_ecs.Consul.Acl.{FullToken}
use consul_ecs.Upserts.Resources.{in_turn}

-- The options for a namespace and a partition, which are empty without partitions.
abbrev pub scope : Bool → String → String → WriteOptions
scope enabled namespace partition =
    if enabled
    then record { namespace = namespace; partition = partition }
    else record { namespace = ""; partition = "" }

-- The token is the anonymous one as Consul has answered it, with one more policy.
abbrev pub IsAnonymousToken : Client → FullToken → Type 0
IsAnonymousToken api t =
    (h : History) × (o : QueryOptions) × (t' : FullToken) × (policy : String) × (api.token h
        "00000000-0000-0000-0000-000000000002" o
      ≡ ok t')
    × (t ≡ record t' { policies = t'.policies ++ policy ∷ [] })

-- A read, or a write with the options for the partition; the anonymous token and its policy are
-- written with the options for the default partition, and a partition is created only where
-- partitions are enabled. No call deletes, and none touches a namespace.
abbrev pub IsUpsertIn : Client → Bool → String → Call → Type 0
IsUpsertIn api enabled partition (register r o) =
    (o ≡ some (scope enabled "" partition)) × (r.partition ≡ partition)
IsUpsertIn api enabled partition agent_self = Unit
IsUpsertIn api enabled partition partition_list = Unit
IsUpsertIn api enabled partition (policy_read_by_name _ _) = Unit
IsUpsertIn api enabled partition (role_read_by_name _ _) = Unit
IsUpsertIn api enabled partition (auth_method_read _ _) = Unit
IsUpsertIn api enabled partition (binding_rule_list _ _) = Unit
IsUpsertIn api enabled partition (token_read _ _) = Unit
IsUpsertIn api enabled partition (partition_create name) = (enabled ≡ true) × (name ≡ partition)
IsUpsertIn api enabled partition (policy_create p o) =
    (o ≡ some (scope enabled "" partition))
    ⊎ ((p.name ≡ "anonymous-token-policy") × (o ≡ some (scope enabled "default" "default")))
IsUpsertIn api enabled partition (role_create _ o) = o ≡ scope enabled "" partition
IsUpsertIn api enabled partition (role_update _ o) = o ≡ scope enabled "" partition
IsUpsertIn api enabled partition (auth_method_create _ o) = o ≡ scope enabled "" partition
IsUpsertIn api enabled partition (auth_method_update _ o) = o ≡ scope enabled "" partition
IsUpsertIn api enabled partition (binding_rule_create _ o) = o ≡ scope enabled "" partition
IsUpsertIn api enabled partition (binding_rule_update _ o) = o ≡ scope enabled "" partition
IsUpsertIn api enabled partition (token_update t o) =
    (o ≡ scope enabled "default" "default") × IsAnonymousToken api t
IsUpsertIn api enabled partition _ = ⊥

pub write_options-scope :
    (c : Config) → write_options c ≡ scope c.controller.partitions_enabled "" c.controller.partition
unfolding write_options
write_options-scope c = ground arith

pub anonymous_write_options-scope :
    (c : Config)
    → anonymous_write_options c ≡ scope c.controller.partitions_enabled "default" "default"
unfolding anonymous_write_options
anonymous_write_options-scope c = ground arith

module _ (c : Config) (api : Client) where
  abbrev pub IsUpsert : Call → Type 0
  IsUpsert = IsUpsertIn api c.controller.partitions_enabled c.controller.partition

  -- The action adds only such calls.
  abbrev pub Upserts : (History → Option Error × History) → Type 0
  Upserts f = (h : History) → Extends IsUpsert h (f h).1

  pub and_then-Upserts :
      (f g : History → Option Error × History)
      → Upserts f
      → Upserts g
      → Upserts (λ h. and_then (f h) g)
  and_then-Upserts f g p q h = elim (Option-cases (f h).0) [
    | inl fine ↦ rw fine (Extends-trans IsUpsert h (f h).1 (g (f h).1).1 (p h) (q (f h).1))
    | inr (e, failed) ↦ rw failed (p h)
  ]

  pub in_turn-Upserts :
      (steps : List (History → Option Error × History))
      → All Upserts steps
      → Upserts (in_turn steps)
  unfolding in_turn
  in_turn-Upserts [] p h = Extends-refl IsUpsert h
  in_turn-Upserts (step ∷ steps) p h =
      and_then-Upserts step (in_turn steps) p.0 (in_turn-Upserts steps p.1) h

  pub two :
      (h : History) (call call' : Call)
      → IsUpsert call
      → IsUpsert call'
      → Extends IsUpsert h ((h ++ call ∷ []) ++ call' ∷ [])
  two h call call' p q =
      Extends-trans IsUpsert h (h ++ call ∷ []) _ (Extends-one IsUpsert h call p)
        (Extends-one IsUpsert (h ++ call ∷ []) call' q)

  pub if-Upserts :
      (b : Bool) (p q : Option Error × History) (h : History)
      → (b ≡ true → Extends IsUpsert h p.1)
      → (b ≡ false → Extends IsUpsert h q.1)
      → Extends IsUpsert h (if b then p else q).1
  if-Upserts true p q h f g = f refl
  if-Upserts false p q h f g = g refl
