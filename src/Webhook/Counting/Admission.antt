-- ===== src/Webhook/Counting/Admission.antt =====
-- The two webhooks of a counted kind in a row, as the API server calls them for a new object: the
-- annotator, and then the validator on what the annotator made of it.
use projectresourcequota.Prelude.{
  String, ◌≡◌, ap, Bool, true, false, none, some, List, [], ◌∷◌, ◌++◌, if◌then◌else◌,
}
use projectresourcequota.Dict.{lookup, has, insert, entries}
use projectresourcequota.Dict.Laws.{lookup-insert}
use projectresourcequota.Quantity.{Quantity}
use projectresourcequota.Api.{Object, ProjectResourceQuota}
use projectresourcequota.Api.Names.{ResourceName, project_resource_quota_annotation}
use projectresourcequota.Api.Result.{Result, ok, ◌>>=◌, ◌>>◌}
use projectresourcequota.Api.Client.{Reader}
use projectresourcequota.Util.{object_accessor, add_annotation}
use projectresourcequota.Webhook.Annotator.{annotate_first}
use projectresourcequota.Webhook.Annotator.Owner.{owns, IsPartition, annotate_first_owner}
use projectresourcequota.Webhook.Counting.{annotated_project, count_create}
use projectresourcequota.Webhook.Counting.Verdicts.{verdict_of, decides}
use projectresourcequota.Controller.Reconcile.{find_objects}

abbrev pub annotated_with : {B : Type 0} → Object B → String → Object B
annotated_with obj prq_name = record obj {
  meta = record obj.meta {
    annotations = some (insert "project-resource-quota" prq_name (entries obj.meta.annotations));
  };
}

project_of_annotated :
    {B : Type 0} (obj : Object B) (prq_name : String)
    → lookup project_resource_quota_annotation
        (entries (annotated_with obj prq_name).meta.annotations)
      ≡ some prq_name
project_of_annotated obj prq_name =
    lookup-insert "project-resource-quota" "project-resource-quota" prq_name
      (entries obj.meta.annotations)

find_objects-annotated_with :
    {B : Type 0} (obj : Object B) (prq_name : String)
    → find_objects (annotated_with obj prq_name) ≡ prq_name ∷ []
unfolding find_objects
find_objects-annotated_with obj prq_name =
    ap (λ o. elim o as (λ _. List String) [ none ↦ [] | some n ↦ n ∷ [] ])
      (project_of_annotated obj prq_name)

pub annotated_with-project :
    {B : Type 0} (obj : Object B) (prq_name : String)
    → annotated_project (annotated_with obj prq_name) ≡ some prq_name
unfolding annotated_project
annotated_with-project obj prq_name =
    lookup-insert "project-resource-quota" "project-resource-quota" prq_name
      (entries obj.meta.annotations)

unannotated-create :
    {Q B : Type 0} ⦃q : Quantity Q⦄ (resource : ResourceName) (reader : Reader Q) (obj : Object B)
    → annotated_project obj ≡ none
    → count_create resource reader obj ≡ ok tt
unfolding count_create
unannotated-create resource reader obj fresh = rw fresh

module _ {Q B : Type 0} ⦃q : Quantity Q⦄ (resource : ResourceName) (reader : Reader Q)
    (obj : Object B) where
  -- An object that passes is given to the store as the annotator left it.
  abbrev pub admit : Result Q (Object B)
  admit =
      annotate_first resource reader obj >>= λ obj'. count_create resource reader obj' >> ok obj'

  -- A new object of a counted kind without the annotation, in a namespace that a project owns,
  -- where the projects share no namespace and this one is fetched as it was listed: if the project
  -- does not limit the kind, the object is admitted as it is. If it does, the object is admitted
  -- with the annotation that names the project when the usage is below the limit, and refused when
  -- it is not; and a change of the admitted object has the controller reconcile that project alone.
  pub admit_owner :
      (before : List (ProjectResourceQuota Q)) (prq : ProjectResourceQuota Q)
      (after : List (ProjectResourceQuota Q))
      → reader.list ≡ ok (before ++ prq ∷ after)
      → reader.get prq.meta.name ≡ ok prq
      → IsPartition (before ++ prq ∷ after)
      → owns obj.meta.namespace prq ≡ true
      → annotated_project obj ≡ none
      → (admit ≡ (
          if has resource prq.spec.hard
          then (verdict_of resource prq >> ok (annotated_with obj prq.meta.name))
          else ok obj))
        × (find_objects (annotated_with obj prq.meta.name) ≡ prq.meta.name ∷ [])
  unfolding add_annotation
  admit_owner before prq after listed got apart own fresh = (
    rw (annotate_first_owner resource reader obj before prq after listed apart own)
        (by_limit (has resource prq.spec.hard)),
    find_objects-annotated_with obj prq.meta.name,
  )
    where
      checked :
          count_create resource reader (annotated_with obj prq.meta.name) ≡ verdict_of resource prq
      checked =
          decides reader (annotated_with obj prq.meta.name)
            (annotated_with-project obj prq.meta.name) got resource

      by_limit :
          (limited : Bool)
          → ((if limited
                then add_annotation obj project_resource_quota_annotation prq.meta.name
                else ok obj)
              >>= λ obj'. count_create resource reader obj' >> ok obj')
            ≡ (if limited
                then (verdict_of resource prq >> ok (annotated_with obj prq.meta.name))
                else ok obj)
      by_limit true = ap (λ v. v >> ok (annotated_with obj prq.meta.name)) checked
      by_limit false = rw (unannotated-create resource reader obj fresh)
