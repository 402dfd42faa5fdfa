-- ===== src/Webhook/Project/Registry.antt =====
-- The custom resources of a cluster as a state machine whose steps pass the webhooks.
-- The reader of a step is the webhooks' cached client, which may be behind the list that the step
-- changes; `IsFresh` says that it was not, in any step of a history.
-- The API server keeps names apart, and an update keeps the name; a change of the status
-- subresource passes no webhook, and nor does a deletion that the finalizers allow.
use projectresourcequota.Prelude.{
  ◌≡◌, ◌≢◌, refl, sym, ap, ◌∙◌, inl, inr, true, false, ◌||◌, List, [], ◌∷◌, ◌++◌, contains, All,
  All-map, All-middle, All-replace, All-remove, All-both, Pairwise, Pairwise-others,
  Pairwise-replace, Pairwise-remove, ShareNone-symm, arith, subst, Bool-cases,
}
use projectresourcequota.Dict.{keys}
use projectresourcequota.Quantity.{Quantity}
use projectresourcequota.Api.{ProjectResourceQuota, ProjectResourceQuotaStatus, is_deleting}
use projectresourcequota.Api.Names.{project_resource_quota_finalizer}
use projectresourcequota.Api.Result.{Result, ok}
use projectresourcequota.Api.Client.{Reader}
use projectresourcequota.Util.{project_accessor, appended}
use projectresourcequota.Util.Finalizers.{contains-appended}
use projectresourcequota.Webhook.Annotator.Owner.{IsApart, IsPartition}
use projectresourcequota.Webhook.Project.{default, validate_create, validate_update}
use projectresourcequota.Webhook.Project.Namespaces.{IsNoConflict}
use projectresourcequota.Webhook.Project.Names.{
  IsSupported, validate_create_iff, validate_update_iff,
}

module _ {Q : Type 0} where
  abbrev pub HasOtherName : ProjectResourceQuota Q → ProjectResourceQuota Q → Type 0
  HasOtherName p r = p.meta.name ≢ r.meta.name

  -- A project that is not being deleted has the finalizer, and it limits supported resources.
  pub record IsGuarded (p : ProjectResourceQuota Q) : Type 0 where
    pub finalized :
        (is_deleting p || contains project_resource_quota_finalizer p.meta.finalizers) ≡ true
    pub supported : All IsSupported (keys p.spec.hard)

  pub record IsSound (items : List (ProjectResourceQuota Q)) : Type 0 where
    pub partition : IsPartition items
    pub names : Pairwise HasOtherName items
    pub guarded : All IsGuarded items

-- One change of the list of projects.
pub data Step {Q : Type 0} ⦃q : Quantity Q⦄ (s s' : List (ProjectResourceQuota Q)) : Type 0 where
  create :
      (reader : Reader Q) (prq prq' : ProjectResourceQuota Q)
      → All (HasOtherName prq) s
      → default prq ≡ ok prq'
      → validate_create reader prq' ≡ ok tt
      → s' ≡ prq' ∷ s
      → Step s s'
  update :
      (reader : Reader Q) (before : List (ProjectResourceQuota Q))
      (old prq prq' : ProjectResourceQuota Q) (after : List (ProjectResourceQuota Q))
      → s ≡ before ++ old ∷ after
      → prq.meta.name ≡ old.meta.name
      → default prq ≡ ok prq'
      → validate_update reader old prq' ≡ ok tt
      → s' ≡ before ++ prq' ∷ after
      → Step s s'
  update_status :
      (before : List (ProjectResourceQuota Q)) (old : ProjectResourceQuota Q)
      (status : ProjectResourceQuotaStatus Q) (after : List (ProjectResourceQuota Q))
      → s ≡ before ++ old ∷ after
      → s' ≡ before ++ record old { status = status } ∷ after
      → Step s s'
  remove :
      (before : List (ProjectResourceQuota Q)) (old : ProjectResourceQuota Q)
      (after : List (ProjectResourceQuota Q))
      → s ≡ before ++ old ∷ after
      → s' ≡ before ++ after
      → Step s s'

pub data Reach {Q : Type 0} ⦃q : Quantity Q⦄ : List (ProjectResourceQuota Q) → Type 0 where
  empty : Reach []
  next : {s s' : List (ProjectResourceQuota Q)} → Reach s → Step s s' → Reach s'

module _ {Q : Type 0} ⦃q : Quantity Q⦄ where
  -- The webhook validated against the list that the step changes.
  abbrev pub IsCurrent : {s s' : List (ProjectResourceQuota Q)} → Step s s' → Type 0
  IsCurrent {s} (create reader prq prq' fresh defaulted accepted to) = reader.list ≡ ok s
  IsCurrent {s} (update reader before old prq prq' after at_step same defaulted accepted to) =
      reader.list ≡ ok s
  IsCurrent (update_status before old status after at_step to) = Unit
  IsCurrent (remove before old after at_step to) = Unit

  -- It did so in each step of a history.
  abbrev pub IsFresh : {s : List (ProjectResourceQuota Q)} → Reach s → Type 0
  IsFresh empty = Unit
  IsFresh (next r step) = IsFresh r × IsCurrent step

module _ {Q : Type 0} where
  -- What `default` leaves alone, and what it makes sure of.
  pub record Defaulted (prq prq' : ProjectResourceQuota Q) : Type 0 where
    pub name : prq'.meta.name ≡ prq.meta.name
    pub finalized :
        (is_deleting prq' || contains project_resource_quota_finalizer prq'.meta.finalizers) ≡ true

  ok_injective : (a b : ProjectResourceQuota Q) → ◌≡◌ {A = Result Q _} (ok a) (ok b) → a ≡ b
  ok_injective a b h = cc

  with_finalizer : ProjectResourceQuota Q → ProjectResourceQuota Q
  with_finalizer prq = record prq {
    meta = record prq.meta {
      finalizers = appended project_resource_quota_finalizer prq.meta.finalizers;
    };
  }

  default_live :
      (prq : ProjectResourceQuota Q)
      → is_deleting prq ≡ false
      → default prq ≡ ok (with_finalizer prq)
  unfolding default with_finalizer
  default_live prq live = rw live

  default_deleting : (prq : ProjectResourceQuota Q) → is_deleting prq ≡ true → default prq ≡ ok prq
  unfolding default
  default_deleting prq deleting = rw deleting

  with_finalizer-Defaulted : (prq : ProjectResourceQuota Q) → Defaulted prq (with_finalizer prq)
  unfolding with_finalizer
  with_finalizer-Defaulted prq = record {
    name = refl;
    finalized =
        rw
          (contains-appended project_resource_quota_finalizer project_resource_quota_finalizer
            prq.meta.finalizers)
          (ground arith);
  }

  default-Defaulted :
      (prq prq' : ProjectResourceQuota Q) → default prq ≡ ok prq' → Defaulted prq prq'
  default-Defaulted prq prq' h = elim (Bool-cases (is_deleting prq)) [
    | inl deleting ↦
        subst (Defaulted prq) (ok_injective prq prq' (sym (default_deleting prq deleting) ∙ h))
          (record { name = refl; finalized = rw deleting })
    | inr live ↦
        subst (Defaulted prq)
          (ok_injective (with_finalizer prq) prq' (sym (default_live prq live) ∙ h))
          (with_finalizer-Defaulted prq)
  ]

  other_name_symm : (p r : ProjectResourceQuota Q) → HasOtherName p r → HasOtherName r p
  other_name_symm p r h e = h (sym e)

  IsApart-symm : (p r : ProjectResourceQuota Q) → IsApart p r → IsApart r p
  IsApart-symm p r = ShareNone-symm p.spec.namespaces r.spec.namespaces

  -- What passed the check and has another name is apart.
  IsApart-of_checked :
      (p r : ProjectResourceQuota Q)
      → HasOtherName p r
      → IsNoConflict p.meta.name p.spec.namespaces r
      → IsApart p r
  IsApart-of_checked p r other (inl same) = absurd (other same)
  IsApart-of_checked p r other (inr apart) =
      ShareNone-symm r.spec.namespaces p.spec.namespaces apart

  -- A new project among others of other names.
  replace-IsSound :
      (before : List (ProjectResourceQuota Q)) (old prq : ProjectResourceQuota Q)
      (after : List (ProjectResourceQuota Q))
      → IsSound (before ++ old ∷ after)
      → All (HasOtherName prq) (before ++ after)
      → All (IsApart prq) (before ++ after)
      → IsGuarded prq
      → IsSound (before ++ prq ∷ after)
  replace-IsSound before old prq after sound other apart guarded = record {
    partition = Pairwise-replace IsApart IsApart-symm before old prq after sound.partition apart;
    names = Pairwise-replace HasOtherName other_name_symm before old prq after sound.names other;
    guarded = All-replace IsGuarded before old prq after sound.guarded guarded;
  }

module _ {Q : Type 0} ⦃q : Quantity Q⦄ where
  create-IsSound :
      (reader : Reader Q) (s : List (ProjectResourceQuota Q)) (prq prq' : ProjectResourceQuota Q)
      → reader.list ≡ ok s
      → All (HasOtherName prq) s
      → default prq ≡ ok prq'
      → validate_create reader prq' ≡ ok tt
      → IsSound s
      → IsSound (prq' ∷ s)
  create-IsSound reader s prq prq' listed fresh defaulted accepted sound =
      let d = default-Defaulted prq prq' defaulted in
      let (checked, supported) = (validate_create_iff reader listed prq').0 accepted in
      let other =
        All-map (HasOtherName prq) (HasOtherName prq') s (λ r ne e. ne (sym d.name ∙ e)) fresh in
      record {
        partition = (
          All-both (HasOtherName prq') (IsNoConflict prq'.meta.name prq'.spec.namespaces)
              (IsApart prq') (IsApart-of_checked prq') s other checked,
          sound.partition,
        );
        names = (other, sound.names);
        guarded = (record { finalized = d.finalized; supported = supported }, sound.guarded);
      }

  update-IsSound :
      (reader : Reader Q) (before : List (ProjectResourceQuota Q))
      (old prq prq' : ProjectResourceQuota Q) (after : List (ProjectResourceQuota Q))
      → reader.list ≡ ok (before ++ old ∷ after)
      → prq.meta.name ≡ old.meta.name
      → default prq ≡ ok prq'
      → validate_update reader old prq' ≡ ok tt
      → IsSound (before ++ old ∷ after)
      → IsSound (before ++ prq' ∷ after)
  update-IsSound reader before old prq prq' after listed same defaulted accepted sound =
      let d = default-Defaulted prq prq' defaulted in
      let (checked, limits) = (validate_update_iff reader listed old prq').0 accepted in
      let other =
        All-map (HasOtherName old) (HasOtherName prq') (before ++ after)
          (λ r ne e. ne (sym (d.name ∙ same) ∙ e))
          (Pairwise-others HasOtherName other_name_symm before old after sound.names) in
      let conflict_free =
        All-remove (IsNoConflict prq'.meta.name prq'.spec.namespaces) before old after checked in
      replace-IsSound before old prq' after sound other
        (All-both (HasOtherName prq') (IsNoConflict prq'.meta.name prq'.spec.namespaces)
          (IsApart prq') (IsApart-of_checked prq') (before ++ after) other conflict_free)
        (record { finalized = d.finalized; supported = limits.0 })

  status-IsSound :
      (before : List (ProjectResourceQuota Q)) (old : ProjectResourceQuota Q)
      (status : ProjectResourceQuotaStatus Q) (after : List (ProjectResourceQuota Q))
      → IsSound (before ++ old ∷ after)
      → IsSound (before ++ record old { status = status } ∷ after)
  status-IsSound before old status after sound =
      let guarded = All-middle IsGuarded before old after sound.guarded in
      replace-IsSound before old (record old { status = status }) after sound
        (Pairwise-others HasOtherName other_name_symm before old after sound.names)
        (Pairwise-others IsApart IsApart-symm before old after sound.partition)
        (record { finalized = guarded.finalized; supported = guarded.supported })

  remove-IsSound :
      (before : List (ProjectResourceQuota Q)) (old : ProjectResourceQuota Q)
      (after : List (ProjectResourceQuota Q))
      → IsSound (before ++ old ∷ after)
      → IsSound (before ++ after)
  remove-IsSound before old after sound = record {
    partition = Pairwise-remove IsApart before old after sound.partition;
    names = Pairwise-remove HasOtherName before old after sound.names;
    guarded = All-remove IsGuarded before old after sound.guarded;
  }

  -- Every step whose webhook read the current list keeps the list of projects sound.
  pub Step-IsSound :
      {s s' : List (ProjectResourceQuota Q)} (step : Step s s')
      → IsCurrent step
      → IsSound s
      → IsSound s'
  Step-IsSound {s} (create reader prq prq' fresh defaulted accepted after_step) listed sound =
      rw after_step (create-IsSound reader s prq prq' listed fresh defaulted accepted sound)
  Step-IsSound (update reader before old prq prq' after at_step same defaulted accepted to) listed
        sound =
      rw to (
        update-IsSound reader before old prq prq' after (listed ∙ ap ok at_step) same defaulted
          accepted (subst IsSound at_step sound))
  Step-IsSound (update_status before old status after at_step to) current sound =
      rw to (status-IsSound before old status after (subst IsSound at_step sound))
  Step-IsSound (remove before old after at_step to) current sound =
      rw to (remove-IsSound before old after (subst IsSound at_step sound))

  -- If each creation and each update of a project was validated against the list of projects as it
  -- was then (a webhook's cache was never behind), then, however projects are created, updated and
  -- deleted through the webhooks, no two of them share a namespace or a name, each that is not being
  -- deleted has the finalizer, and each limits supported resources only.
  pub Reach-IsSound : {s : List (ProjectResourceQuota Q)} (r : Reach s) → IsFresh r → IsSound s
  Reach-IsSound empty fresh = record { partition = tt; names = tt; guarded = tt }
  Reach-IsSound (next r step) fresh = Step-IsSound step fresh.1 (Reach-IsSound r fresh.0)
