-- ===== src/Startup/Serves.antt =====
-- What is registered with a manager that `main` has started.
use projectresourcequota.Prelude.{
  ◌≡◌, refl, sym, ap, subst, ◌∙◌, inl, inr, Option, some, List, [], ◌∷◌, All, arith,
}
use projectresourcequota.Quantity.{Quantity}
use projectresourcequota.Api.Result.{Result, Verdict, ok, err}
use projectresourcequota.Webhook.Pod.{PodResources}
use projectresourcequota.Controller.Cluster.{Action}
use projectresourcequota.Controller.Cluster.Laws.{
  bind_ok, Preserves, Ensures, then-Preserves, then-Ensures, later-Ensures,
}
use projectresourcequota.Startup.Manager.{Target, Watch, Manager, IsRegistry}
use projectresourcequota.Startup.Setup.{
  Flags, options_of, watches, setup_with_manager, run, exit_code, main_with, main,
}
use projectresourcequota.Startup.Handlers.{target_cases, targets, every_target, webhook_of}
use projectresourcequota.Startup.Sequence.{finish, register_then, run_lem}

module _ {Q B R M : Type 0} ⦃q : Quantity Q⦄ (helper : PodResources Q B)
    (manager : Manager Q B R M) where
  module _ (registry : IsRegistry manager) where
    IsServed : Target → M → Type 0
    IsServed t m = registry.webhook_at m t ≡ some (webhook_of helper t)

    webhook-IsServed :
        (t other : Target)
        → Preserves (IsServed other) (manager.complete_webhook t (webhook_of helper t))
    unfolding IsServed
    webhook-IsServed t other m m' h served = elim (target_cases t other) [
      | inl same ↦
          subst (λ x. registry.webhook_at m' x ≡ some (webhook_of helper x)) same
            (registry.webhook-at t (webhook_of helper t) m m' h)
      | inr differ ↦ registry.webhook-other t (webhook_of helper t) m m' other h differ ∙ served
    ]

    register-IsServed :
        (ts : List Target) (other : Target) (rest : Action Q M (Unit {0}))
        → Preserves (IsServed other) rest
        → Preserves (IsServed other) (register_then helper manager ts rest)
    unfolding register_then
    register-IsServed [] other rest keep = keep
    register-IsServed (t ∷ later) other rest keep =
        then-Preserves (IsServed other) (manager.complete_webhook t (webhook_of helper t))
          (register_then helper manager later rest) (webhook-IsServed t other)
          (register-IsServed later other rest keep)

    registered-IsServed :
        (ts : List Target) (rest : Action Q M (Unit {0}))
        → ((t : Target) → Preserves (IsServed t) rest)
        → Ensures (λ m. All (λ t. IsServed t m) ts) (register_then helper manager ts rest)
    unfolding register_then IsServed
    registered-IsServed [] rest keep m m' h = tt
    registered-IsServed (t ∷ later) rest keep m m' h = (
      then-Ensures (IsServed t) (manager.complete_webhook t (webhook_of helper t))
          (register_then helper manager later rest) (registry.webhook-at t (webhook_of helper t))
          (register-IsServed later t rest (keep t)) m m' h,
      later-Ensures (λ x. All (λ o. IsServed o x) later)
          (manager.complete_webhook t (webhook_of helper t))
          (register_then helper manager later rest) (registered-IsServed later rest keep) m m' h,
    )

    finish_lem :
        (m m' : M)
        → (finish helper manager) m ≡ (ok tt, m')
        → (registry.webhook_at m' ≡ registry.webhook_at m)
          × (registry.controller_at m' ≡ registry.controller_at m)
          × (manager.start m' ≡ ok tt)
    finish_lem m m' h =
        let (_, m1, first, later) = bind_ok (manager.add_healthz_check "healthz") _ tt m m' h in
        let (_, m2, second, last) = bind_ok (manager.add_readyz_check "readyz") _ tt m1 m' later in
        let same = ap (λ p. p.1) last in
        (
          ap registry.webhook_at (sym same)
              ∙ (registry.readyz-keeps "readyz" m1 m2 second).0
              ∙ (registry.healthz-keeps "healthz" m m1 first).0,
          ap registry.controller_at (sym same)
              ∙ (registry.readyz-keeps "readyz" m1 m2 second).1
              ∙ (registry.healthz-keeps "healthz" m m1 first).1,
          ap manager.start (sym same) ∙ ap (λ p. p.0) last,
        )

    register-controller :
        (c : Option (List (Watch B) × R)) (ts : List Target) (rest : Action Q M (Unit {0}))
        → Preserves (λ m. registry.controller_at m ≡ c) rest
        → Preserves (λ m. registry.controller_at m ≡ c) (register_then helper manager ts rest)
    unfolding register_then
    register-controller c [] rest keep = keep
    register-controller c (t ∷ later) rest keep =
        then-Preserves (λ m. registry.controller_at m ≡ c)
          (manager.complete_webhook t (webhook_of helper t))
          (register_then helper manager later rest)
          (λ m m' h same. registry.webhook-controller t (webhook_of helper t) m m' h ∙ same)
          (register-controller c later rest keep)

    register-started :
        (ts : List Target)
        → Ensures
            (λ m. manager.start m ≡ ok tt)
            (register_then helper manager ts (finish helper manager))
    unfolding register_then
    register-started [] m m' h = (finish_lem m m' h).2
    register-started (t ∷ later) m m' h =
        later-Ensures (λ x. manager.start x ≡ ok tt)
          (manager.complete_webhook t (webhook_of helper t))
          (register_then helper manager later (finish helper manager)) (register-started later) m m'
          h

    -- What a manager has when everything is registered with it.
    pub record IsServing (r : R) (m : M) : Type 0 where
      pub started : manager.start m ≡ ok tt
      pub webhooks : (t : Target) → registry.webhook_at m t ≡ some (webhook_of helper t)
      pub controller : registry.controller_at m ≡ some (watches helper manager, r)

    run-IsServing : (r : R) (m m' : M) → run helper manager r m ≡ (ok tt, m') → IsServing r m'
    unfolding setup_with_manager IsServed
    run-IsServing r m m' h =
        let h' = rw (run_lem helper manager r) at h in
        let (_, m1, set_up, later) =
          bind_ok (setup_with_manager helper manager r)
            (λ _. register_then helper manager targets (finish helper manager)) tt m m' h' in
        let set_up' = registry.controller-at (watches helper manager) r m m1 set_up in
        record {
          started = register-started targets m1 m' later;
          webhooks =
              every_target (λ t. registry.webhook_at m' t ≡ some (webhook_of helper t))
                (registered-IsServed targets (finish helper manager)
                  (λ t x x' f served. ap (λ w. w t) (finish_lem x x' f).0 ∙ served) m1 m' later);
          controller =
              register-controller (some (watches helper manager, r)) targets (finish helper manager)
                (λ x x' f same. (finish_lem x x' f).1 ∙ same) m1 m' later set_up';
        }

    -- If `main` ends with exit code 0, it started a manager on which each of the eight targets has
    -- the webhook with the annotator and the validator written for it, and on which the controller
    -- is registered with the reconciler and the seven watches.
    pub main_serves :
        (r : R) (flags : Flags) → main helper manager r flags ≡ 0 → (m : M) × IsServing r m
    unfolding main
    main_serves r flags h = by_manager (manager.new_manager (options_of flags)) h
      where
        by_run :
            (m : M) (out : Verdict Q × M)
            → run helper manager r m ≡ out
            → exit_code helper manager out.0 ≡ 0
            → (m' : M) × IsServing r m'
        by_run m (ok tt, m') e h' = (m', run-IsServing r m m' e)
        by_run m (err x, m') e h' = absurd (omega arith)

        by_manager :
            (new : Result Q M) → main_with helper manager r new ≡ 0 → (m' : M) × IsServing r m'
        by_manager (ok m) h' = by_run m (run helper manager r m) refl h'
        by_manager (err x) h' = absurd (omega arith)
