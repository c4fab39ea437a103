-- ===== src/Controller/Returns.antt =====
-- That a pass of controller/controller.go ends: the pages of `fetchECSTasks`.
use consul_ecs.Base.{
  ℕ, suc, zero, ◌+◌, ◌≤◌, ◌≡◌, ◌≢◌, String, leb, Bool-cases, Option, none, some, ok, [], ◌∷◌, arith,
  Option-cases, Result-cases, List-cases, inl, inr,
}
use consul_ecs.Base.Dict.{Dict}
use consul_ecs.Client.{History}
use consul_ecs.Controller.Env.{TaskState, Lister, TaskPage, Env}
use consul_ecs.Controller.Ecs.{fetch_pages, fetch_ecs_tasks, add_tasks}
use consul_ecs.Controller.Lister.{list}
use consul_ecs.Controller.Pass.{reconcile_all}

-- ECS gives no next token from this round on.
abbrev pub EndsAt : Env → ℕ → Type 0
EndsAt env n =
    (round : ℕ) (token : Option String) (page : TaskPage)
    → n ≤ round
    → env.list_tasks round token ≡ ok page
    → page.next_token ≡ none

module _ (env : Env) (s : Lister) where
  fetch_pages_returns :
      (n : ℕ)
      → EndsAt env n
      → (fuel round : ℕ) (token : Option String) (m : Dict TaskState) → suc n ≤ fuel + round
      → 1 ≤ fuel
      → fetch_pages env s fuel round token m ≢ none
  unfolding fetch_pages
  fetch_pages_returns n ends zero round token m enough one e = absurd (omega (arith, one))
  fetch_pages_returns n ends (suc fuel) round token m enough one e =
      elim (Result-cases (env.list_tasks round token)) [
        | inl (x, failed) ↦ ground arith
        | inr (page, listed) ↦ elim (List-cases page.task_arns) [
          | inl empty ↦ ground arith
          | inr (arn, arns, full) ↦ elim (Result-cases (env.describe_tasks round (arn ∷ arns))) [
            | inl (x, failed) ↦ ground arith
            | inr (tasks, described) ↦ elim (Option-cases page.next_token) [
              | inl last ↦ ground arith
              | inr (next, more) ↦ elim (Bool-cases (leb n round)) [
                | inl late ↦ let last = ends round token page (ground arith) listed in ground arith
                | inr early ↦
                    fetch_pages_returns n ends fuel (round + 1) (some next) (add_tasks s tasks m)
                      (ground arith) (ground arith) (ground arith)
              ]
            ]
          ]
        ]
      ]

  -- A pass returns, within one more round of pages than it takes ECS to stop giving a next token.
  pub reconcile_all_returns :
      (n : ℕ) (h : History) → EndsAt env n → reconcile_all env s (suc n) h ≢ none
  unfolding reconcile_all list fetch_ecs_tasks
  reconcile_all_returns n h ends e =
      let fetched = fetch_pages_returns n ends (suc n) 0 none [] (omega arith) (omega arith) in
      elim (Option-cases (env.setup h)) [
        | inr (x, failed) ↦ ground arith
        | inl fine ↦ elim (Option-cases (fetch_pages env s (suc n) 0 none [])) [
          | inl out ↦ fetched out
          | inr (answer, is) ↦ elim (Result-cases answer) [
            | inl (x, failed) ↦ ground arith
            | inr (tasks, listed) ↦ ground arith
          ]
        ]
      ]
