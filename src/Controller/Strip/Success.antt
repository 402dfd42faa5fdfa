-- ===== src/Controller/Strip/Success.antt =====
-- `remove_annotation_from_objects` succeeds if no call of its client fails.
use projectresourcequota.Prelude.{String, refl, List, [], ◌∷◌, Bool-cases, inl, inr}
use projectresourcequota.Api.{Kind, Object, Body}
use projectresourcequota.Api.Names.{project_resource_quota_annotation}
use projectresourcequota.Util.{object_accessor, is_annotation_exists, remove_annotation}
use projectresourcequota.Controller.Cluster.{Client}
use projectresourcequota.Controller.Cluster.Laws.{IsReliable, Succeeds, then-Succeeds}
use projectresourcequota.Controller.Strip.{
  StringSets, strip_object, strip_items, strip_kind, strip_namespace, strip_namespaces,
  remove_annotation_from_objects,
}

module _ {Q B S : Type 0} (client : Client Q B S) (reliable : IsReliable client) where
  strip_object-Succeeds :
      (k : Kind) (obj : Object (Body B k)) → Succeeds (strip_object client k obj)
  unfolding strip_object remove_annotation
  strip_object-Succeeds k obj s =
      elim (Bool-cases (is_annotation_exists obj project_resource_quota_annotation)) [
        | inl marked ↦ rw marked (reliable.update-ok k _ s)
        | inr free ↦ rw free (s, refl)
      ]

  strip_items-Succeeds :
      (k : Kind) (items : List (Object (Body B k))) → Succeeds (strip_items client k items)
  unfolding strip_items
  strip_items-Succeeds k [] s = (s, refl)
  strip_items-Succeeds k (obj ∷ rest) s =
      then-Succeeds (strip_object client k obj) (strip_items client k rest)
        (strip_object-Succeeds k obj) (strip_items-Succeeds k rest) s

  strip_kind-Succeeds : (ns : String) (k : Kind) → Succeeds (strip_kind client ns k)
  unfolding strip_kind
  strip_kind-Succeeds ns k s =
      let (items, listed) = reliable.list-ok k ns s in rw listed (strip_items-Succeeds k items s)

  strip_namespace-Succeeds : (ns : String) → Succeeds (strip_namespace client ns)
  unfolding strip_namespace
  strip_namespace-Succeeds ns = then-Succeeds _ _ (strip_kind-Succeeds ns Kind.config_map) (
      then-Succeeds _ _ (strip_kind-Succeeds ns Kind.persistent_volume_claim) (
        then-Succeeds _ _ (strip_kind-Succeeds ns Kind.pod) (
          then-Succeeds _ _ (strip_kind-Succeeds ns Kind.replication_controller) (
            then-Succeeds _ _ (strip_kind-Succeeds ns Kind.resource_quota) (
              then-Succeeds _ _ (strip_kind-Succeeds ns Kind.secret)
                (strip_kind-Succeeds ns Kind.service))))))

  strip_namespaces-Succeeds : (nss : List String) → Succeeds (strip_namespaces client nss)
  unfolding strip_namespaces
  strip_namespaces-Succeeds [] s = (s, refl)
  strip_namespaces-Succeeds (ns ∷ rest) s =
      then-Succeeds (strip_namespace client ns) (strip_namespaces client rest)
        (strip_namespace-Succeeds ns) (strip_namespaces-Succeeds rest) s

  pub remove_annotation-Succeeds :
      {N : Type 0} (sets : StringSets N) (removed : N)
      → Succeeds (remove_annotation_from_objects client sets removed)
  unfolding remove_annotation_from_objects
  remove_annotation-Succeeds sets removed s = elim (Bool-cases (sets.is_empty removed)) [
    | inl none ↦ rw none (s, refl)
    | inr some ↦ rw some (strip_namespaces-Succeeds (sets.list removed) s)
  ]
