-- ===== src/MeshInit/Holds.antt =====
-- What holds of mesh-init as it goes on, and what its retries do.
use mathlib.Core.Path.{subst}
use mathlib.Core.List.{append_assoc}
use consul_ecs.Base.{
  ℕ, zero, suc, ◌≡◌, refl, sym, ap, ◌∙◌, [], ◌∷◌, ◌++◌, Option, none, some, Result, ok, err, Error,
  arith, inl, inr, Option-cases, Bool-cases,
}
use consul_ecs.Consul.{CatalogRegistration, ServiceConfigEntry}
use consul_ecs.Client.{
  Client, Call, History, register, service_defaults_set, Extends, Extends-refl, Extends-one,
  Extends-trans,
}
use consul_ecs.MeshInit.ServiceDefaults.{succeeds, set_with_retries}
use consul_ecs.MeshInit.Host.{Progress, Outcome, finished, retrying, panics, and_then, with}
use consul_ecs.MeshInit.Run.{register_with_retries}

-- The predicate holds of what there is when the command goes on; nothing is said of a command that
-- has ended, or that is still retrying when the fuel is out.
abbrev pub Holds : (Progress → Type 0) → Outcome → Type 0
Holds P (finished none p) = P p
Holds P (finished (some _) p) = Unit
Holds P retrying = Unit
Holds P panics = Unit

pub and_then-Holds :
    (P Q : Progress → Type 0) (m : Outcome) (k : Progress → Outcome)
    → Holds Q m
    → ((p : Progress) → Q p → Holds P (k p))
    → Holds P (and_then m k)
and_then-Holds P Q (finished none p) k q f = f p q
and_then-Holds P Q (finished (some e) p) k q f = tt
and_then-Holds P Q retrying k q f = q
and_then-Holds P Q panics k q f = tt

pub Holds-map :
    (P Q : Progress → Type 0) (m : Outcome) → Holds P m → ((p : Progress) → P p → Q p) → Holds Q m
Holds-map P Q (finished none p) h f = f p h
Holds-map P Q (finished (some e) p) h f = tt
Holds-map P Q retrying h f = h
Holds-map P Q panics h f = tt

pub with-Holds :
    {A : Type 0} (P : Progress → Type 0) (r : Result A) (p : Progress) (k : A → Outcome)
    → ((a : A) → r ≡ ok a → Holds P (k a))
    → Holds P (with r p k)
with-Holds P (ok a) p k f = f a refl
with-Holds P (err e) p k f = tt

-- An end of which the predicate holds, with whatever error.
pub finished-Holds :
    (P : Progress → Type 0) (e : Option Error) (p : Progress) → P p → Holds P (finished e p)
finished-Holds P none p h = h
finished-Holds P (some e) p h = tt

abbrev pub Longer : History → History → Type 0
Longer = Extends (λ _. Unit)

pub Longer-refl : (h : History) → Longer h h
Longer-refl = Extends-refl (λ _. Unit)

pub Longer-one : (h : History) (call : Call) → Longer h (h ++ call ∷ [])
Longer-one h call = Extends-one (λ _. Unit) h call tt

pub Longer-trans : (h1 h2 h3 : History) → Longer h1 h2 → Longer h2 h3 → Longer h1 h3
Longer-trans = Extends-trans (λ _. Unit)

-- The step only adds calls.
abbrev pub After : Progress → Outcome → Type 0
After p = Holds (λ p'. Longer p.history p'.history)

-- Consul has accepted the registration.
abbrev pub IsAccepted : Client → CatalogRegistration → History → Type 0
IsAccepted api registration h =
    (before : History) × (after : History) × (h ≡ before ++ register registration none ∷ after)
    × (api.failure before (register registration none) ≡ none)

pub Longer-IsAccepted :
    (api : Client) (registration : CatalogRegistration) (h h' : History)
    → Longer h h'
    → IsAccepted api registration h
    → IsAccepted api registration h'
Longer-IsAccepted api registration h h' (calls, e, _) (before, after, e', taken) = (
  before,
  after ++ calls,
  e
      ∙ ap (λ (l : History). l ++ calls) e'
      ∙ append_assoc before (register registration none ∷ after) calls,
  taken,
)

pub register_with_retries-IsAccepted :
    (api : Client) (registration : CatalogRegistration) (fuel : ℕ) (h h' : History)
    → register_with_retries api registration fuel h ≡ some h'
    → IsAccepted api registration h' × Longer h h'
unfolding register_with_retries
register_with_retries-IsAccepted api registration zero h h' e = absurd (ground arith)
register_with_retries-IsAccepted api registration (suc fuel) h h' e =
    let call = register registration none in
    elim (Option-cases (api.failure h call)) [
      | inl taken ↦
          let same : h ++ call ∷ [] ≡ h' = ground (arith, e, taken) in
          ((h, [], sym same, taken), subst (Longer h) same (Longer-one h call))
      | inr (x, failed) ↦
          let (taken, longer) =
            register_with_retries-IsAccepted api registration fuel (h ++ call ∷ []) h'
              (rw (failed, register_with_retries) at e) in
          (taken, Longer-trans h (h ++ call ∷ []) h' (Longer-one h call) longer)
    ]

pub set_with_retries-Longer :
    (api : Client) (entry : ServiceConfigEntry) (fuel : ℕ) (h h' : History)
    → set_with_retries api entry fuel h ≡ some h'
    → Longer h h'
unfolding set_with_retries
set_with_retries-Longer api entry zero h h' e = absurd (ground arith)
set_with_retries-Longer api entry (suc fuel) h h' e =
    let call = service_defaults_set entry in
    elim (Bool-cases (succeeds (api.set_service_defaults h entry))) [
      | inl done ↦
          let same : h ++ call ∷ [] ≡ h' = ground (arith, e, done) in
          subst (Longer h) same (Longer-one h call)
      | inr failed ↦ Longer-trans h (h ++ call ∷ []) h' (Longer-one h call) (
          set_with_retries-Longer api entry fuel (h ++ call ∷ []) h'
            (rw (failed, set_with_retries) at e))
    ]
