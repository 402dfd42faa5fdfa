-- ===== src/Samples/Cluster.antt =====
-- A cluster that has config maps and one project, with a client that keeps them, and sets of
-- strings as lists.
use projectresourcequota.Prelude.{
  String, ◌≡◌, ◌≢◌, refl, sym, ap, ◌∙◌, Bool, true, false, not, ◌&&◌, ◌==◌, eq_iff, List, [], ◌∷◌,
  All, contains, arith, Bool-cases, inl, inr, if◌then◌else◌,
}
use projectresourcequota.Prelude.Int.{ℤ}
use projectresourcequota.Api.{Kind, Object, Body, ProjectResourceQuota}
use projectresourcequota.Api.Result.{Result, ok}
use projectresourcequota.Controller.Cluster.{Client}
use projectresourcequota.Controller.Cluster.Laws.{stored, listed_after, IsStore, IsReliable}
use projectresourcequota.Controller.Strip.{StringSets}
use projectresourcequota.Controller.Reconcile.Settled.{IsStatusStore}

abbrev pub in_namespace : {B : Type 0} → String → List (Object B) → List (Object B)
in_namespace namespace [] = []
in_namespace namespace (obj ∷ rest) =
    let found = in_namespace namespace rest in
    if obj.meta.namespace == namespace then obj ∷ found else found

pub record World : Type 0 where
  pub config_maps : List (Object (Unit {0}))
  pub project : ProjectResourceQuota ℤ

abbrev pub list_of : (k : Kind) → String → World → Result ℤ (List (Object (Body (Unit {0}) k)))
list_of Kind.config_map namespace s = ok (in_namespace namespace s.config_maps)
list_of Kind.persistent_volume_claim namespace s = ok []
list_of Kind.pod namespace s = ok []
list_of Kind.replication_controller namespace s = ok []
list_of Kind.resource_quota namespace s = ok []
list_of Kind.secret namespace s = ok []
list_of Kind.service namespace s = ok []

abbrev pub put : (k : Kind) → Object (Body (Unit {0}) k) → World → World
put Kind.config_map obj s = record s { config_maps = stored obj s.config_maps }
put Kind.persistent_volume_claim obj s = s
put Kind.pod obj s = s
put Kind.replication_controller obj s = s
put Kind.resource_quota obj s = s
put Kind.secret obj s = s
put Kind.service obj s = s

abbrev pub world : Client ℤ (Unit {0}) World
world = record {
  get = λ name s. ok s.project;
  is_not_found = λ e. false;
  list = list_of;
  update = λ k obj s. (ok tt, put k obj s);
  update_project = λ prq s. (ok tt, record s { project = prq });
  update_status = λ prq s. (ok tt, record s { project = prq });
}

pub in_namespace-stored :
    {B : Type 0} (ns : String) (obj : Object B) (items : List (Object B))
    → in_namespace ns (stored obj items) ≡ stored obj (in_namespace ns items)
in_namespace-stored ns obj [] = refl
in_namespace-stored ns obj (o ∷ rest) = ground (
  arith,
  in_namespace-stored ns obj rest,
  eq_iff obj.meta.namespace o.meta.namespace,
  eq_iff obj.meta.namespace ns,
  eq_iff o.meta.namespace ns,
)

pub all_in_namespace :
    {B : Type 0} (ns : String) (items : List (Object B))
    → All (λ o. o.meta.namespace ≡ ns) (in_namespace ns items)
all_in_namespace ns [] = tt
all_in_namespace ns (o ∷ rest) = elim (Bool-cases (o.meta.namespace == ns)) [
  | inl here ↦ rw here ((eq_iff o.meta.namespace ns).0 here, all_in_namespace ns rest)
  | inr away ↦ rw away (all_in_namespace ns rest)
]

put-list :
    (k : Kind) (obj : Object (Body (Unit {0}) k)) (s : World) (ns : String)
    → list_of k ns (put k obj s) ≡ listed_after obj (list_of k ns s)
put-list Kind.config_map obj s ns = ap ok (in_namespace-stored ns obj s.config_maps)
put-list Kind.persistent_volume_claim obj s ns = refl
put-list Kind.pod obj s ns = refl
put-list Kind.replication_controller obj s ns = refl
put-list Kind.resource_quota obj s ns = refl
put-list Kind.secret obj s ns = refl
put-list Kind.service obj s ns = refl

put-other :
    (k : Kind) (obj : Object (Body (Unit {0}) k)) (s : World) (other : Kind) (ns : String)
    → k ≢ other
    → list_of other ns (put k obj s) ≡ list_of other ns s
put-other Kind.persistent_volume_claim obj s other ns differ = refl
put-other Kind.pod obj s other ns differ = refl
put-other Kind.replication_controller obj s other ns differ = refl
put-other Kind.resource_quota obj s other ns differ = refl
put-other Kind.secret obj s other ns differ = refl
put-other Kind.service obj s other ns differ = refl
put-other Kind.config_map obj s Kind.config_map ns differ = absurd (differ refl)
put-other Kind.config_map obj s Kind.persistent_volume_claim ns differ = refl
put-other Kind.config_map obj s Kind.pod ns differ = refl
put-other Kind.config_map obj s Kind.replication_controller ns differ = refl
put-other Kind.config_map obj s Kind.resource_quota ns differ = refl
put-other Kind.config_map obj s Kind.secret ns differ = refl
put-other Kind.config_map obj s Kind.service ns differ = refl

list_of-namespace :
    (k : Kind) (ns : String) (s : World) (items : List (Object (Body (Unit {0}) k)))
    → list_of k ns s ≡ ok items
    → All (λ o. o.meta.namespace ≡ ns) items
list_of-namespace Kind.config_map ns s items h =
    let same : in_namespace ns s.config_maps ≡ items = cc in
    rw (← same) (all_in_namespace ns s.config_maps)
list_of-namespace Kind.persistent_volume_claim ns s items h =
    let same : [] ≡ items = cc in rw (← same) tt
list_of-namespace Kind.pod ns s items h = let same : [] ≡ items = cc in rw (← same) tt
list_of-namespace Kind.replication_controller ns s items h =
    let same : [] ≡ items = cc in rw (← same) tt
list_of-namespace Kind.resource_quota ns s items h = let same : [] ≡ items = cc in rw (← same) tt
list_of-namespace Kind.secret ns s items h = let same : [] ≡ items = cc in rw (← same) tt
list_of-namespace Kind.service ns s items h = let same : [] ≡ items = cc in rw (← same) tt

pub world-IsStore : IsStore world
world-IsStore = record {
  update-list = λ k obj s s' ns h. ap (λ p. list_of k ns p.1) (sym h) ∙ put-list k obj s ns;
  update-other = λ k obj s s' other ns h differ.
      ap (λ p. list_of other ns p.1) (sym h) ∙ put-other k obj s other ns differ;
  list-namespace = list_of-namespace;
}

list_of-ok :
    (k : Kind) (ns : String) (s : World)
    → (items : List (Object (Body (Unit {0}) k))) × (list_of k ns s ≡ ok items)
list_of-ok Kind.config_map ns s = (_, refl)
list_of-ok Kind.persistent_volume_claim ns s = (_, refl)
list_of-ok Kind.pod ns s = (_, refl)
list_of-ok Kind.replication_controller ns s = (_, refl)
list_of-ok Kind.resource_quota ns s = (_, refl)
list_of-ok Kind.secret ns s = (_, refl)
list_of-ok Kind.service ns s = (_, refl)

pub world-IsReliable : IsReliable world
world-IsReliable = record {
  list-ok = list_of-ok;
  update-ok = λ k obj s. (_, refl);
  update_project-ok = λ prq s. (_, refl);
  update_status-ok = λ prq s. (_, refl);
}

-- The entries of one list that are not in another.
abbrev pub minus : List String → List String → List String
minus [] ys = []
minus (x ∷ xs) ys = let rest = minus xs ys in if contains x ys then rest else x ∷ rest

abbrev pub is_nil : List String → Bool
is_nil [] = true
is_nil (x ∷ xs) = false

pub contains-minus :
    (x : String) (xs ys : List String)
    → contains x (minus xs ys) ≡ (contains x xs && not (contains x ys))
contains-minus x [] ys = refl
contains-minus x (z ∷ xs) ys = elim (Bool-cases (z == x)) [
  | inl same ↦ rw ((eq_iff z x).0 same) (ground (arith, contains-minus x xs ys))
  | inr other ↦ ground (arith, contains-minus x xs ys)
]

pub nil_of_empty : (xs : List String) → is_nil xs ≡ true → xs ≡ []
nil_of_empty [] h = refl
nil_of_empty (x ∷ xs) h = absurd (cc)

abbrev pub name_lists : StringSets (List String)
name_lists = record {
  new_string = λ xs. xs;
  difference = minus;
  list = λ xs. xs;
  is_empty = is_nil;
  contains-new_string = λ x xs. refl;
  contains-difference = contains-minus;
  list_empty = nil_of_empty;
}

pub list_of-project :
    (k : Kind) (ns : String) (prq : ProjectResourceQuota ℤ) (s : World)
    → list_of k ns (record s { project = prq }) ≡ list_of k ns s
list_of-project Kind.config_map ns prq s = refl
list_of-project Kind.persistent_volume_claim ns prq s = refl
list_of-project Kind.pod ns prq s = refl
list_of-project Kind.replication_controller ns prq s = refl
list_of-project Kind.resource_quota ns prq s = refl
list_of-project Kind.secret ns prq s = refl
list_of-project Kind.service ns prq s = refl

pub world-IsStatusStore : IsStatusStore world
world-IsStatusStore = record {
  update_status-get = λ prq s s' h. ap (λ p. world.get prq.meta.name p.1) (sym h);
  update_status-list =
      λ prq s s' k ns h. ap (λ p. list_of k ns p.1) (sym h) ∙ list_of-project k ns prq s;
}
