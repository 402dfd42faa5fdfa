-- ===== src/Quota/Admitted.antt =====
-- What follows of a new object of any kind that the two webhooks of its kind let pass.
use projectresourcequota.Prelude.{
  String, ◌≡◌, refl, sym, ap, subst, ◌∙◌, true, false, Option, none, some, List, [], ◌∷◌, ◌++◌,
  contains, Bool-cases, inl, inr, ◌==◌,
}
use projectresourcequota.Dict.{has}
use projectresourcequota.Quantity.{Quantity}
use projectresourcequota.Api.{Kind, Object, Body, Pod, ProjectResourceQuota, is_deleting}
use projectresourcequota.Api.Result.{Result, ok, err, ◌>>=◌}
use projectresourcequota.Api.Client.{Reader}
use projectresourcequota.Util.{add_annotation}
use projectresourcequota.Webhook.Annotator.{
  annotate, scan_namespaces, scan_projects, or_later, annotate_first,
}
use projectresourcequota.Webhook.Annotator.Owner.{owns, IsPartition, annotate_first_owner}
use projectresourcequota.Webhook.Counting.{annotated_project, count_create}
use projectresourcequota.Webhook.Counting.Limit.{HasRoom, room_of_ok}
use projectresourcequota.Webhook.Counting.Verdicts.{count_create-ok}
use projectresourcequota.Webhook.Counting.Admission.{annotated_with, annotated_with-project}
use projectresourcequota.Webhook.ConfigMap
use projectresourcequota.Webhook.PersistentVolumeClaim
use projectresourcequota.Webhook.ReplicationController
use projectresourcequota.Webhook.ResourceQuota
use projectresourcequota.Webhook.Secret
use projectresourcequota.Webhook.Pod
use projectresourcequota.Webhook.Pod.{PodResources}
use projectresourcequota.Webhook.Pod.Fits.{PodFits, validate_create-PodFits}
use projectresourcequota.Webhook.Service
use projectresourcequota.Webhook.Service.Verdicts.{service_create_iff}
use projectresourcequota.Controller.Usage.Counts.{gate}
use projectresourcequota.Startup.Manager.{Target}
use projectresourcequota.Startup.Handlers.{webhook_of}

module _ {Q B : Type 0} (resource : String) (obj : Object B) where
  -- The annotator leaves an object in its namespace.
  InPlace : Result Q (Object B) → Type 0
  InPlace (ok obj') = obj'.meta.namespace ≡ obj.meta.namespace
  InPlace (err e) = Unit

  annotate-InPlace : (prq : ProjectResourceQuota Q) → InPlace (annotate resource obj prq)
  unfolding annotate add_annotation InPlace
  annotate-InPlace prq = elim (Bool-cases (has resource prq.spec.hard)) [
    | inl limited ↦ rw limited refl
    | inr free ↦ rw free refl
  ]

  scan_namespaces-InPlace :
      (prq : ProjectResourceQuota Q) (nss : List String) (r : Result Q (Object B))
      → scan_namespaces resource obj prq nss ≡ some r
      → InPlace r
  unfolding scan_namespaces
  scan_namespaces-InPlace prq [] r h = absurd (cc)
  scan_namespaces-InPlace prq (ns ∷ rest) r h = elim (Bool-cases (ns == obj.meta.namespace)) [
    | inl here ↦
        let first : annotate resource obj prq ≡ r = cc (rw here at h) in
        rw (← first) (annotate-InPlace prq)
    | inr there ↦ scan_namespaces-InPlace prq rest r (rw there at h)
  ]

  by_scan :
      (later : Result Q (Object B))
      → InPlace later
      → (o : Option (Result Q (Object B))) → ((r : Result Q (Object B)) → o ≡ some r → InPlace r)
      → InPlace (or_later o later)
  by_scan later last none found = last
  by_scan later last (some r) found = found r refl

  scan_projects-InPlace :
      (items : List (ProjectResourceQuota Q)) → InPlace (scan_projects resource obj items)
  unfolding scan_projects InPlace
  scan_projects-InPlace [] = refl
  scan_projects-InPlace (prq ∷ rest) = elim (Bool-cases (is_deleting prq)) [
    | inl deleting ↦ rw deleting (scan_projects-InPlace rest)
    | inr live ↦ rw live (
        by_scan _ (scan_projects-InPlace rest)
          (scan_namespaces resource obj prq prq.spec.namespaces)
          (scan_namespaces-InPlace prq prq.spec.namespaces))
  ]

  annotate_first-namespace :
      (reader : Reader Q) (obj' : Object B)
      → annotate_first resource reader obj ≡ ok obj'
      → obj'.meta.namespace ≡ obj.meta.namespace
  unfolding annotate_first InPlace
  annotate_first-namespace reader obj' h = by_list reader.list h
    where
      by_list :
          (listed : Result Q (List (ProjectResourceQuota Q)))
          → (listed >>= scan_projects resource obj) ≡ ok obj'
          → obj'.meta.namespace ≡ obj.meta.namespace
      by_list (ok items) e = subst InPlace e (scan_projects-InPlace items)
      by_list (err x) e = absurd (cc)

module _ {Q B : Type 0} ⦃q : Quantity Q⦄ (helper : PodResources Q B) (reader : Reader Q) where
  -- The API server stores `obj'` for the new object `obj`: the mutating webhook of its kind made
  -- the one of the other, and the validating webhook let it pass.
  pub record IsAdmitted (k : Kind) (obj obj' : Object (Body B k)) : Type 0 where
    pub annotated : (webhook_of helper (Target.objects k)).default reader obj ≡ ok obj'
    pub validated : (webhook_of helper (Target.objects k)).validate_create reader obj' ≡ ok tt

  default_lem :
      (k : Kind) (obj : Object (Body B k))
      → (webhook_of helper (Target.objects k)).default reader obj
        ≡ annotate_first (gate k) reader obj
  unfolding ConfigMap.default PersistentVolumeClaim.default ReplicationController.default
      ResourceQuota.default Secret.default Pod.default Service.default
  default_lem Kind.config_map obj = refl
  default_lem Kind.persistent_volume_claim obj = refl
  default_lem Kind.pod obj = refl
  default_lem Kind.replication_controller obj = refl
  default_lem Kind.resource_quota obj = refl
  default_lem Kind.secret obj = refl
  default_lem Kind.service obj = refl

  count_create-HasRoom :
      {B' : Type 0} (name : String) (obj : Object B') {prq_name : String}
      {prq : ProjectResourceQuota Q}
      → annotated_project obj ≡ some prq_name
      → reader.get prq_name ≡ ok prq
      → count_create name reader obj ≡ ok tt
      → HasRoom name prq
  count_create-HasRoom name obj {prq = prq} annotated got passed =
      room_of_ok name prq (sym (count_create-ok reader obj annotated name got) ∙ passed)

  -- A validator of any kind accepts an annotated object only if the count of its kind has room.
  validate_create-HasRoom :
      (k : Kind) (obj : Object (Body B k)) {name : String} {prq : ProjectResourceQuota Q}
      → annotated_project obj ≡ some name
      → reader.get name ≡ ok prq
      → (webhook_of helper (Target.objects k)).validate_create reader obj ≡ ok tt
      → HasRoom (gate k) prq
  unfolding ConfigMap.validate_create PersistentVolumeClaim.validate_create
      ReplicationController.validate_create ResourceQuota.validate_create Secret.validate_create
  validate_create-HasRoom Kind.pod obj annotated got passed =
      ((validate_create-PodFits helper reader obj annotated got).0 passed).pods
  validate_create-HasRoom Kind.service obj annotated got passed =
      ((service_create_iff reader obj annotated got).0 passed).0
  validate_create-HasRoom Kind.config_map obj annotated got passed =
      count_create-HasRoom "configmaps" obj annotated got passed
  validate_create-HasRoom Kind.persistent_volume_claim obj annotated got passed =
      count_create-HasRoom "persistentvolumeclaims" obj annotated got passed
  validate_create-HasRoom Kind.replication_controller obj annotated got passed =
      count_create-HasRoom "replicationcontrollers" obj annotated got passed
  validate_create-HasRoom Kind.resource_quota obj annotated got passed =
      count_create-HasRoom "resourcequotas" obj annotated got passed
  validate_create-HasRoom Kind.secret obj annotated got passed =
      count_create-HasRoom "secrets" obj annotated got passed

  module _ (before : List (ProjectResourceQuota Q)) (prq : ProjectResourceQuota Q)
      (after : List (ProjectResourceQuota Q)) (read : reader.list ≡ ok (before ++ prq ∷ after))
      (apart : IsPartition (before ++ prq ∷ after)) (got : reader.get prq.meta.name ≡ ok prq) where
    -- A new object in a namespace of a live project that limits its kind is annotated with it.
    pub admitted-project :
        (k : Kind) (obj obj' : Object (Body B k))
        → IsAdmitted k obj obj'
        → is_deleting prq ≡ false
        → has (gate k) prq.spec.hard ≡ true
        → contains obj'.meta.namespace prq.spec.namespaces ≡ true
        → annotated_project obj' ≡ some prq.meta.name
    unfolding add_annotation
    admitted-project k obj obj' admitted live limited inside =
        let step = sym (default_lem k obj) ∙ admitted.annotated in
        let place = annotate_first-namespace (gate k) obj reader obj' step in
        let owned : owns obj.meta.namespace prq ≡ true = rw (live, ← place, inside) refl in
        let decided = annotate_first_owner (gate k) reader obj before prq after read apart owned in
        let same : ok (annotated_with obj prq.meta.name) ≡ ok obj' =
          sym (rw limited at decided) ∙ step in
        let to_obj : annotated_with obj prq.meta.name ≡ obj' = cc in
        ap annotated_project (sym to_obj) ∙ annotated_with-project obj prq.meta.name

    -- It is only stored when the count of its kind has room.
    pub admitted-HasRoom :
        (k : Kind) (obj obj' : Object (Body B k))
        → IsAdmitted k obj obj'
        → is_deleting prq ≡ false
        → has (gate k) prq.spec.hard ≡ true
        → contains obj'.meta.namespace prq.spec.namespaces ≡ true
        → HasRoom (gate k) prq
    admitted-HasRoom k obj obj' admitted live limited inside =
        validate_create-HasRoom k obj' (admitted-project k obj obj' admitted live limited inside)
          got admitted.validated

    -- A pod is only stored when it fits.
    pub admitted-PodFits :
        (pod pod' : Pod B)
        → IsAdmitted Kind.pod pod pod'
        → is_deleting prq ≡ false
        → has "pods" prq.spec.hard ≡ true
        → contains pod'.meta.namespace prq.spec.namespaces ≡ true
        → PodFits prq (helper.pod_requests pod') (helper.pod_limits pod')
    admitted-PodFits pod pod' admitted live limited inside =
        (validate_create-PodFits helper reader pod'
            (admitted-project Kind.pod pod pod' admitted live limited inside) got).0
          admitted.validated
