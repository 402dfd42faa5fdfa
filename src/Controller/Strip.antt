-- ===== src/Controller/Strip.antt =====
-- `removeAnnotationFromObjects`: the annotation is taken from the objects of the namespaces that
-- left a project. The seven kinds have one loop each, written once here.
-- The sets of k8s.io/apimachinery/pkg/util/sets are the interface `StringSets`.
pub mod Marks
pub mod Cleared
pub mod Namespaces
pub mod Success
pub mod Frame
pub mod Refused
use projectresourcequota.Prelude.{
  String, ◌≡◌, Bool, true, not, ◌&&◌, List, [], ◌∷◌, contains, if◌then◌else◌,
}
use projectresourcequota.Api.{Kind, Object, Body}
use projectresourcequota.Api.Names.{project_resource_quota_annotation}
use projectresourcequota.Util.{object_accessor, is_annotation_exists, remove_annotation}
use projectresourcequota.Controller.Cluster.{Client, Action, pure, lift, reads, ◌>>=◌, ◌>>◌}

-- Sets of strings of a type `N`.
pub record StringSets (N : Type 0) : Type 0 where
  -- `sets.NewString(items...)`
  pub new_string : List String → N
  -- `s.Difference(t)`
  pub difference : N → N → N
  -- `s.List()`, in sorted order
  pub list : N → List String
  -- `len(s) == 0`
  pub is_empty : N → Bool
  pub contains-new_string :
      (x : String) (xs : List String) → contains x (list (new_string xs)) ≡ contains x xs
  pub contains-difference :
      (x : String) (s t : N)
      → contains x (list (difference s t)) ≡ (contains x (list s) && not (contains x (list t)))
  pub list_empty : (s : N) → is_empty s ≡ true → list s ≡ []

module _ {Q B S : Type 0} (client : Client Q B S) where
  -- The body of a loop: an object that has no annotation is skipped.
  unfoldable pub strip_object : (k : Kind) → Object (Body B k) → Action Q S (Unit {0})
  strip_object k obj =
      if not (is_annotation_exists obj project_resource_quota_annotation) then pure tt else do
        obj' ← lift (remove_annotation obj project_resource_quota_annotation)
        client.update k obj'

  unfoldable pub strip_items : (k : Kind) → List (Object (Body B k)) → Action Q S (Unit {0})
  strip_items k [] = pure tt
  strip_items k (obj ∷ rest) = strip_object k obj >> strip_items k rest

  unfoldable pub strip_kind : String → Kind → Action Q S (Unit {0})
  strip_kind namespace k = do items ← reads (client.list k namespace); strip_items k items

  unfoldable pub strip_namespace : String → Action Q S (Unit {0})
  strip_namespace namespace = do
    strip_kind namespace Kind.config_map
    strip_kind namespace Kind.persistent_volume_claim
    strip_kind namespace Kind.pod
    strip_kind namespace Kind.replication_controller
    strip_kind namespace Kind.resource_quota
    strip_kind namespace Kind.secret
    strip_kind namespace Kind.service

  unfoldable pub strip_namespaces : List String → Action Q S (Unit {0})
  strip_namespaces [] = pure tt
  strip_namespaces (namespace ∷ rest) = strip_namespace namespace >> strip_namespaces rest

  unfoldable pub remove_annotation_from_objects :
      {N : Type 0} → StringSets N → N → Action Q S (Unit {0})
  remove_annotation_from_objects sets removed_namespaces =
      if sets.is_empty removed_namespaces
      then pure tt
      else strip_namespaces (sets.list removed_namespaces)
