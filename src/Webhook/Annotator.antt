-- ===== src/Webhook/Annotator.antt =====
-- The `Default` methods of the seven annotators, which differ in the kind of the object and in
-- the resource that a project has to limit (api/v1/configmap_webhook.go and the like).
pub mod Owner
use projectresourcequota.Prelude.{String, Option, none, some, List, [], ◌∷◌, ◌==◌, if◌then◌else◌}
use projectresourcequota.Dict.{has}
use projectresourcequota.Api.{Object, ProjectResourceQuota, is_deleting}
use projectresourcequota.Api.Names.{ResourceName, project_resource_quota_annotation}
use projectresourcequota.Api.Result.{Result, ok, ◌>>=◌}
use projectresourcequota.Api.Client.{Reader}
use projectresourcequota.Util.{object_accessor, add_annotation}

module _ {Q B : Type 0} where
  -- The body of the inner loop at a namespace that is the object's.
  unfoldable pub annotate : ResourceName → Object B → ProjectResourceQuota Q → Result Q (Object B)
  annotate resource obj prq =
      if has resource prq.spec.hard
      then add_annotation obj project_resource_quota_annotation prq.meta.name
      else ok obj

  -- The loop over `prq.Spec.Namespaces`; `none` if it ends without a return.
  unfoldable pub scan_namespaces :
      ResourceName → Object B → ProjectResourceQuota Q → List String → Option (Result Q (Object B))
  scan_namespaces resource obj prq [] = none
  scan_namespaces resource obj prq (ns ∷ rest) =
      if ns == obj.meta.namespace
      then some (annotate resource obj prq)
      else scan_namespaces resource obj prq rest

  abbrev pub or_later : Option (Result Q (Object B)) → Result Q (Object B) → Result Q (Object B)
  or_later (some returned) later = returned
  or_later none later = later

  -- The loop over `prqList.Items`.
  unfoldable pub scan_projects :
      ResourceName → Object B → List (ProjectResourceQuota Q) → Result Q (Object B)
  scan_projects resource obj [] = ok obj
  scan_projects resource obj (prq ∷ rest) =
      let later = scan_projects resource obj rest in
      if is_deleting prq
      then later
      else or_later (scan_namespaces resource obj prq prq.spec.namespaces) later

  unfoldable pub annotate_first : ResourceName → Reader Q → Object B → Result Q (Object B)
  unfolding scan_projects scan_namespaces annotate add_annotation
  annotate_first resource reader obj = reader.list >>= scan_projects resource obj
