-- ===== src/Controller/Reconcile/Blocked.antt =====
-- The deletion of a project against the webhook of services, and the objects that a deletion does
-- not reach.
use projectresourcequota.Prelude.{
  String, ◌≡◌, ◌≢◌, refl, sym, ap, ◌∙◌, true, false, List, [], ◌∷◌, ◌++◌, All, All-middle, All-map,
  contains, arith, eq_refl, ShareNone-symm,
}
use projectresourcequota.Quantity.{Quantity}
use projectresourcequota.Api.{Kind, Service, ProjectResourceQuota, is_deleting}
use projectresourcequota.Api.Client.{Reader}
use projectresourcequota.Api.Result.{ok}
use projectresourcequota.Util.{project_accessor, remove_finalizer}
use projectresourcequota.Webhook.Annotator.Owner.{IsForeign, IsApart, IsPartition}
use projectresourcequota.Webhook.Pod.{PodResources}
use projectresourcequota.Controller.Cluster.{Client, lift}
use projectresourcequota.Controller.Cluster.Laws.{IsStore, bind_ok}
use projectresourcequota.Controller.Strip.{StringSets, remove_annotation_from_objects}
use projectresourcequota.Controller.Strip.Marks.{is_marked}
use projectresourcequota.Controller.Strip.Frame.{remove_annotation_elsewhere}
use projectresourcequota.Controller.Strip.Refused.{IsAdmitting, remove_annotation_refused}
use projectresourcequota.Controller.Reconcile.{finish_deletion, reconcile}

All-listed {κ} :
    (P : String → Type κ) (xs : List String)
    → ((x : String) → contains x xs ≡ true → P x)
    → All P xs
All-listed P [] h = tt
All-listed P (x ∷ xs) h =
    (h x (ground (arith, eq_refl x)), All-listed P xs (λ y found. h y (ground arith)))

module _ {Q : Type 0} where
  apart_of_listed :
      (ns : String) (p r : ProjectResourceQuota Q)
      → contains ns p.spec.namespaces ≡ true
      → IsApart p r
      → IsForeign ns r
  apart_of_listed ns p r inside apart = ground (arith, apart ns)

  -- A project that is being deleted owns nothing, and no project that is apart from it owns its
  -- namespaces.
  none_owns :
      (ns : String) (pre : List (ProjectResourceQuota Q)) (prq : ProjectResourceQuota Q)
      (post : List (ProjectResourceQuota Q))
      → IsPartition (pre ++ prq ∷ post)
      → is_deleting prq ≡ true
      → contains ns prq.spec.namespaces ≡ true
      → All (IsForeign ns) (pre ++ prq ∷ post)
  none_owns ns [] prq post apart deleting inside = (
    rw deleting refl,
    All-map (IsApart prq) (IsForeign ns) post (λ r. apart_of_listed ns prq r inside) apart.0,
  )
  none_owns ns (p ∷ pre) prq post apart deleting inside = (
    apart_of_listed ns prq p inside (
        ShareNone-symm p.spec.namespaces prq.spec.namespaces
          (All-middle (IsApart p) pre prq post apart.0)),
    none_owns ns pre prq post apart.1 deleting inside,
  )

module _ {Q B S N : Type 0} ⦃q : Quantity Q⦄ (helper : PodResources Q B) (sets : StringSets N)
    (client : Client Q B S) (store : IsStore client) where
  finish_deletion_strips :
      (prq : ProjectResourceQuota Q) (s s' : S)
      → finish_deletion helper sets client prq s ≡ (ok tt, s')
      → (s1 : S) × (released : ProjectResourceQuota Q) × (remove_annotation_from_objects client sets
            (sets.new_string prq.spec.namespaces)
            s
          ≡ (ok tt, s1))
        × (client.update_project released s1 ≡ (ok tt, s'))
  unfolding finish_deletion
  finish_deletion_strips prq s s' h =
      let (_, s1, stripped, later) =
        bind_ok (remove_annotation_from_objects client sets (sets.new_string prq.spec.namespaces)) _
          tt s s' h in
      let (released, s2, lifted, updated) =
        bind_ok (lift (remove_finalizer "jenting.io/finalizer" prq)) client.update_project tt s1 s'
          later in
      (s1, released, stripped, ap (client.update_project released) (ap (λ p. p.1) lifted) ∙ updated)

  -- On an API server that asks the program's webhooks, and with projects that share no namespace: a
  -- project that is being deleted and has an annotated service in one of its namespaces is never
  -- reconciled with success.
  pub deletion_blocked :
      (projects : S → Reader Q) (admitting : IsAdmitting client projects) (name : String) (s s' : S)
      (pre : List (ProjectResourceQuota Q)) (prq : ProjectResourceQuota Q)
      (post : List (ProjectResourceQuota Q)) (ns : String) (before : List (Service B))
      (svc : Service B) (after : List (Service B))
      → client.get name s ≡ ok prq
      → is_deleting prq ≡ true
      → (projects s).list ≡ ok (pre ++ prq ∷ post)
      → IsPartition (pre ++ prq ∷ post)
      → contains ns prq.spec.namespaces ≡ true
      → client.list Kind.service ns s ≡ ok (before ++ svc ∷ after)
      → is_marked svc ≡ true
      → reconcile helper sets client name s ≢ (ok tt, s')
  unfolding reconcile
  deletion_blocked projects admitting name s s' pre prq post ns before svc after got deleting read
        apart inside found marked done =
      let (s1, _, stripped, _) = finish_deletion_strips prq s s' (rw (got, deleting) at done) in
      remove_annotation_refused client store projects admitting sets
        (sets.new_string prq.spec.namespaces) s s1 (pre ++ prq ∷ post) ns before svc after read
        (All-listed (λ n. All (IsForeign n) (pre ++ prq ∷ post))
          (sets.list (sets.new_string prq.spec.namespaces))
          λ n found_n.
            none_owns n pre prq post apart deleting
              (sym (sets.contains-new_string n prq.spec.namespaces) ∙ found_n))
        (sets.contains-new_string ns prq.spec.namespaces ∙ inside) found marked stripped

  -- A deletion that succeeds reaches the namespaces of the specification only: where an update of
  -- the project changes no object, every other namespace has the objects it had, also one that has
  -- left the specification and that the status still has.
  pub deletion_elsewhere :
      ((prq : ProjectResourceQuota Q) (s s' : S) (k : Kind) (ns : String)
        → client.update_project prq s ≡ (ok tt, s')
        → client.list k ns s' ≡ client.list k ns s)
      → (name : String) (s s' : S) (prq : ProjectResourceQuota Q) → client.get name s ≡ ok prq
      → is_deleting prq ≡ true
      → reconcile helper sets client name s ≡ (ok tt, s')
      → (k : Kind) (ns : String) → contains ns prq.spec.namespaces ≡ false
      → client.list k ns s' ≡ client.list k ns s
  unfolding reconcile
  deletion_elsewhere quiet name s s' prq got deleting done k ns outside =
      let (s1, released, stripped, updated) =
        finish_deletion_strips prq s s' (rw (got, deleting) at done) in
      quiet released s1 s' k ns updated
      ∙ remove_annotation_elsewhere client store sets (sets.new_string prq.spec.namespaces) s s1
          stripped k ns (sets.contains-new_string ns prq.spec.namespaces ∙ outside)
