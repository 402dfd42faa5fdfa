-- ===== src/Webhook/Annotator/Owner.antt =====
-- Which project annotates an object: the first one in the list that owns the object's namespace,
-- and with projects that share no namespace, the only one.
use projectresourcequota.Prelude.{
  String, ◌≡◌, refl, Bool, true, false, not, ◌&&◌, none, some, List, [], ◌∷◌, ◌++◌, contains, All,
  All-middle, Pairwise, ShareNone, arith, if◌then◌else◌,
}
use projectresourcequota.Dict.{has}
use projectresourcequota.Api.{Object, ProjectResourceQuota, is_deleting}
use projectresourcequota.Api.Names.{ResourceName, project_resource_quota_annotation}
use projectresourcequota.Api.Result.{ok}
use projectresourcequota.Api.Client.{Reader}
use projectresourcequota.Util.{object_accessor, add_annotation}
use projectresourcequota.Webhook.Annotator.{
  annotate, scan_namespaces, scan_projects, annotate_first,
}

module _ {Q : Type 0} where
  -- A project owns a namespace that it lists, unless it is being deleted.
  abbrev pub owns : String → ProjectResourceQuota Q → Bool
  owns ns prq = not (is_deleting prq) && contains ns prq.spec.namespaces

  abbrev pub IsForeign : String → ProjectResourceQuota Q → Type 0
  IsForeign ns prq = owns ns prq ≡ false

  -- Two projects list no namespace both.
  abbrev pub IsApart : ProjectResourceQuota Q → ProjectResourceQuota Q → Type 0
  IsApart p r = ShareNone p.spec.namespaces r.spec.namespaces

  -- No two projects of the list share a namespace.
  abbrev pub IsPartition : List (ProjectResourceQuota Q) → Type 0
  IsPartition = Pairwise IsApart

module _ {Q B : Type 0} (resource : ResourceName) (obj : Object B) where
  scan_namespaces_lem :
      (prq : ProjectResourceQuota Q) (nss : List String)
      → scan_namespaces resource obj prq nss
        ≡ (if contains obj.meta.namespace nss then some (annotate resource obj prq) else none)
  unfolding scan_namespaces
  scan_namespaces_lem prq [] = refl
  scan_namespaces_lem prq (ns ∷ rest) = ground (arith, scan_namespaces_lem prq rest)

  scan_projects-cons :
      (prq : ProjectResourceQuota Q) (rest : List (ProjectResourceQuota Q))
      → scan_projects resource obj (prq ∷ rest) ≡ (
          if owns obj.meta.namespace prq
          then annotate resource obj prq
          else scan_projects resource obj rest)
  unfolding scan_projects
  scan_projects-cons prq rest = ground (arith, scan_namespaces_lem prq prq.spec.namespaces)

  scan_projects-foreign :
      (before rest : List (ProjectResourceQuota Q))
      → All (IsForeign obj.meta.namespace) before
      → scan_projects resource obj (before ++ rest) ≡ scan_projects resource obj rest
  scan_projects-foreign [] rest h = refl
  scan_projects-foreign (p ∷ ps) rest h =
      rw (scan_projects-cons, h.0) (scan_projects-foreign ps rest h.1)

apart-IsForeign :
    {Q : Type 0} (ns : String) (p r : ProjectResourceQuota Q)
    → owns ns r ≡ true
    → IsApart p r
    → IsForeign ns p
apart-IsForeign ns p r own apart = ground (arith, apart ns)

before-IsForeign :
    {Q : Type 0} (ns : String) (before : List (ProjectResourceQuota Q))
    (prq : ProjectResourceQuota Q) (after : List (ProjectResourceQuota Q))
    → owns ns prq ≡ true
    → IsPartition (before ++ prq ∷ after)
    → All (IsForeign ns) before
before-IsForeign ns [] prq after own h = tt
before-IsForeign ns (p ∷ ps) prq after own (apart, rest) = (
  apart-IsForeign ns p prq own (All-middle (IsApart p) ps prq after apart),
  before-IsForeign ns ps prq after own rest,
)

module _ {Q B : Type 0} (resource : ResourceName) (reader : Reader Q) (obj : Object B) where
  -- If the projects share no namespace, the one that owns the object's namespace, wherever it
  -- stands in the list, decides: the object gets that project's name as its annotation if the
  -- project limits the resource, and is left as it is if not.
  pub annotate_first_owner :
      (before : List (ProjectResourceQuota Q)) (prq : ProjectResourceQuota Q)
      (after : List (ProjectResourceQuota Q))
      → reader.list ≡ ok (before ++ prq ∷ after)
      → IsPartition (before ++ prq ∷ after)
      → owns obj.meta.namespace prq ≡ true
      → annotate_first resource reader obj ≡ (
          if has resource prq.spec.hard
          then add_annotation obj project_resource_quota_annotation prq.meta.name
          else ok obj)
  unfolding annotate_first annotate
  annotate_first_owner before prq after listed apart own = rw (
    listed,
    scan_projects-foreign resource obj before (prq ∷ after)
        (before-IsForeign obj.meta.namespace before prq after own apart),
    scan_projects-cons,
    own,
  )

  -- An object whose namespace no project owns is left as it is.
  pub annotate_first_foreign :
      (items : List (ProjectResourceQuota Q))
      → reader.list ≡ ok items
      → All (IsForeign obj.meta.namespace) items
      → annotate_first resource reader obj ≡ ok obj
  unfolding annotate_first
  annotate_first_foreign items listed foreign = rw listed (none_owns items foreign)
    where
      none_owns :
          (ps : List (ProjectResourceQuota Q))
          → All (IsForeign obj.meta.namespace) ps
          → scan_projects resource obj ps ≡ ok obj
      none_owns [] h = unfold scan_projects in refl
      none_owns (p ∷ ps) h = rw (scan_projects-cons, h.0) (none_owns ps h.1)
