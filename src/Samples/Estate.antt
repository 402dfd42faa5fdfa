-- ===== src/Samples/Estate.antt =====
-- A cluster that has services and projects, with an API server that asks the webhook of services
-- before it stores an update.
use projectresourcequota.Prelude.{
  String, ◌≡◌, ◌≢◌, refl, sym, ap, ◌∙◌, true, some, List, [], ◌∷◌, All,
}
use projectresourcequota.Prelude.Int.{ℤ}
use projectresourcequota.Dict.{lookup}
use projectresourcequota.Util.{is_annotation_exists}
use projectresourcequota.Api.{Kind, Object, Body, Service, ProjectResourceQuota}
use projectresourcequota.Api.Result.{Error, Result, Verdict, ok, err}
use projectresourcequota.Webhook.Annotator.Owner.{IsPartition}
use projectresourcequota.Webhook.Project.Namespaces.{meets, ShareNone-of_meets}
use projectresourcequota.Controller.Cluster.{Client}
use projectresourcequota.Controller.Cluster.Laws.{stored, listed_after, IsStore}
use projectresourcequota.Controller.Strip.Refused.{admit_update, IsAdmitting}
use projectresourcequota.Controller.Reconcile.{reconcile}
use projectresourcequota.Controller.Reconcile.Blocked.{deletion_blocked}
use projectresourcequota.Samples.{
  exact, annotated_meta, service_of, two_cpu, reader_of, get_from, team_a, team_b,
}
use projectresourcequota.Samples.Cluster.{
  in_namespace, in_namespace-stored, all_in_namespace, name_lists,
}

record Estate : Type 0 where
  services : List (Service (Unit {0}))
  projects : List (ProjectResourceQuota ℤ)

abbrev services_of : (k : Kind) → String → Estate → Result ℤ (List (Object (Body (Unit {0}) k)))
services_of Kind.config_map ns s = ok []
services_of Kind.persistent_volume_claim ns s = ok []
services_of Kind.pod ns s = ok []
services_of Kind.replication_controller ns s = ok []
services_of Kind.resource_quota ns s = ok []
services_of Kind.secret ns s = ok []
services_of Kind.service ns s = ok (in_namespace ns s.services)

abbrev store_if : Verdict ℤ → Service (Unit {0}) → Estate → Verdict ℤ × Estate
store_if (ok tt) svc s = (ok tt, record s { services = stored svc s.services })
store_if (err e) svc s = (err e, s)

abbrev update_of : (k : Kind) → Object (Body (Unit {0}) k) → Estate → Verdict ℤ × Estate
update_of Kind.config_map obj s = (ok tt, s)
update_of Kind.persistent_volume_claim obj s = (ok tt, s)
update_of Kind.pod obj s = (ok tt, s)
update_of Kind.replication_controller obj s = (ok tt, s)
update_of Kind.resource_quota obj s = (ok tt, s)
update_of Kind.secret obj s = (ok tt, s)
update_of Kind.service obj s = store_if (admit_update (reader_of s.projects) obj obj) obj s

abbrev estate : Client ℤ (Unit {0}) Estate
estate = record {
  get = λ name s. get_from s.projects name;
  is_not_found = λ e. true;
  list = services_of;
  update = update_of;
  update_project = λ prq s. (ok tt, s);
  update_status = λ prq s. (ok tt, s);
}

store_if-list :
    (v : Verdict ℤ) (svc : Service (Unit {0})) (s s' : Estate) (ns : String)
    → store_if v svc s ≡ (ok tt, s')
    → services_of Kind.service ns s' ≡ listed_after svc (services_of Kind.service ns s)
store_if-list (ok tt) svc s s' ns h =
    ap (λ p. services_of Kind.service ns p.1) (sym h)
    ∙ ap ok (in_namespace-stored ns svc s.services)
store_if-list (err e) svc s s' ns h =
    let wrong : ◌≡◌ {A = Verdict ℤ} (err e) (ok tt) = ap (λ p. p.0) h in absurd (cc)

store_if-projects :
    (v : Verdict ℤ) (svc : Service (Unit {0})) (s s' : Estate)
    → store_if v svc s ≡ (ok tt, s')
    → s'.projects ≡ s.projects
store_if-projects (ok tt) svc s s' h = ap (λ p. p.1.projects) (sym h)
store_if-projects (err e) svc s s' h =
    let wrong : ◌≡◌ {A = Verdict ℤ} (err e) (ok tt) = ap (λ p. p.0) h in absurd (cc)

update_of-list :
    (k : Kind) (obj : Object (Body (Unit {0}) k)) (s s' : Estate) (ns : String)
    → update_of k obj s ≡ (ok tt, s')
    → services_of k ns s' ≡ listed_after obj (services_of k ns s)
update_of-list Kind.config_map obj s s' ns h = refl
update_of-list Kind.persistent_volume_claim obj s s' ns h = refl
update_of-list Kind.pod obj s s' ns h = refl
update_of-list Kind.replication_controller obj s s' ns h = refl
update_of-list Kind.resource_quota obj s s' ns h = refl
update_of-list Kind.secret obj s s' ns h = refl
update_of-list Kind.service obj s s' ns h =
    store_if-list (admit_update (reader_of s.projects) obj obj) obj s s' ns h

update_of-projects :
    (k : Kind) (obj : Object (Body (Unit {0}) k)) (s s' : Estate)
    → update_of k obj s ≡ (ok tt, s')
    → s'.projects ≡ s.projects
update_of-projects Kind.service obj s s' h =
    store_if-projects (admit_update (reader_of s.projects) obj obj) obj s s' h
update_of-projects Kind.config_map obj s s' h = ap (λ p. p.1.projects) (sym h)
update_of-projects Kind.persistent_volume_claim obj s s' h = ap (λ p. p.1.projects) (sym h)
update_of-projects Kind.pod obj s s' h = ap (λ p. p.1.projects) (sym h)
update_of-projects Kind.replication_controller obj s s' h = ap (λ p. p.1.projects) (sym h)
update_of-projects Kind.resource_quota obj s s' h = ap (λ p. p.1.projects) (sym h)
update_of-projects Kind.secret obj s s' h = ap (λ p. p.1.projects) (sym h)

services-other :
    (other : Kind) (ns : String) (s s' : Estate)
    → Kind.service ≢ other
    → services_of other ns s' ≡ services_of other ns s
services-other Kind.config_map ns s s' differ = refl
services-other Kind.persistent_volume_claim ns s s' differ = refl
services-other Kind.pod ns s s' differ = refl
services-other Kind.replication_controller ns s s' differ = refl
services-other Kind.resource_quota ns s s' differ = refl
services-other Kind.secret ns s s' differ = refl
services-other Kind.service ns s s' differ = absurd (differ refl)

update_of-other :
    (k : Kind) (obj : Object (Body (Unit {0}) k)) (s s' : Estate) (other : Kind) (ns : String)
    → update_of k obj s ≡ (ok tt, s')
    → k ≢ other
    → services_of other ns s' ≡ services_of other ns s
update_of-other Kind.service obj s s' other ns h differ = services-other other ns s s' differ
update_of-other Kind.config_map obj s s' other ns h differ =
    ap (λ p. services_of other ns p.1) (sym h)
update_of-other Kind.persistent_volume_claim obj s s' other ns h differ =
    ap (λ p. services_of other ns p.1) (sym h)
update_of-other Kind.pod obj s s' other ns h differ = ap (λ p. services_of other ns p.1) (sym h)
update_of-other Kind.replication_controller obj s s' other ns h differ =
    ap (λ p. services_of other ns p.1) (sym h)
update_of-other Kind.resource_quota obj s s' other ns h differ =
    ap (λ p. services_of other ns p.1) (sym h)
update_of-other Kind.secret obj s s' other ns h differ = ap (λ p. services_of other ns p.1) (sym h)

items_in :
    {B : Type 0} (ns : String) (found items : List (Object B))
    → ◌≡◌ {A = Result ℤ (List (Object B))} (ok found) (ok items)
    → All (λ o. o.meta.namespace ≡ ns) found
    → All (λ o. o.meta.namespace ≡ ns) items
items_in ns found items h there = let same : found ≡ items = cc in rw (← same) there

services_of-namespace :
    (k : Kind) (ns : String) (s : Estate) (items : List (Object (Body (Unit {0}) k)))
    → services_of k ns s ≡ ok items
    → All (λ o. o.meta.namespace ≡ ns) items
services_of-namespace Kind.config_map ns s items h = items_in ns [] items h tt
services_of-namespace Kind.persistent_volume_claim ns s items h = items_in ns [] items h tt
services_of-namespace Kind.pod ns s items h = items_in ns [] items h tt
services_of-namespace Kind.replication_controller ns s items h = items_in ns [] items h tt
services_of-namespace Kind.resource_quota ns s items h = items_in ns [] items h tt
services_of-namespace Kind.secret ns s items h = items_in ns [] items h tt
services_of-namespace Kind.service ns s items h =
    items_in ns (in_namespace ns s.services) items h (all_in_namespace ns s.services)

estate-IsStore : IsStore estate
estate-IsStore = record {
  update-list = update_of-list;
  update-other = update_of-other;
  list-namespace = services_of-namespace;
}

store_if-refused :
    (v : Verdict ℤ) (svc : Service (Unit {0})) (s s' : Estate) (e : Error ℤ)
    → v ≡ err e
    → store_if v svc s ≢ (ok tt, s')
store_if-refused v svc s s' e refused h =
    let stopped = ap (λ x. store_if x svc s) refused in
    let wrong : ◌≡◌ {A = Verdict ℤ} (err e) (ok tt) = ap (λ p. p.0) (sym stopped ∙ h) in cc

estate-IsAdmitting : IsAdmitting estate (λ s. reader_of s.projects)
estate-IsAdmitting = record {
  update-refused = λ svc s s' e refused.
      store_if-refused (admit_update (reader_of s.projects) svc svc) svc s s' e (refused svc);
  update-projects = λ k obj s s' h. ap reader_of (update_of-projects k obj s s' h);
}

-- A project that is being deleted, with a service that it annotated.
abbrev ending : ProjectResourceQuota ℤ
ending = record team_a { meta = record team_a.meta { deletion_timestamp = some 1 } }

abbrev served : Estate
served = record {
  services = service_of (annotated_meta "s" "a2" "a") "ClusterIP" ∷ [];
  projects = team_b ∷ ending ∷ [];
}

served-IsPartition : IsPartition (team_b ∷ ending ∷ [])
unfolding meets
served-IsPartition = ((ShareNone-of_meets ("b1" ∷ []) ("a1" ∷ "a2" ∷ []) refl, tt), (tt, tt))

deletion_blocked_example : reconcile two_cpu name_lists estate "a" served ≢ (ok tt, served)
unfolding is_annotation_exists lookup
deletion_blocked_example =
    deletion_blocked two_cpu name_lists estate estate-IsStore (λ s. reader_of s.projects)
      estate-IsAdmitting "a" served served (team_b ∷ []) ending [] "a2" [] _ [] refl refl refl
      served-IsPartition refl refl refl
