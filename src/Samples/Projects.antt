-- ===== src/Samples/Projects.antt =====
-- The theorems on the custom resource and on the helpers for metadata, at the samples.
use projectresourcequota.Prelude.{
  String, ◌≡◌, ◌≢◌, refl, ◌↔◌, true, false, not, none, some, [], ◌∷◌, ◌==◌, eq_iff, All, contains,
  ◌&&◌, ◌||◌, if◌then◌else◌,
}
use projectresourcequota.Prelude.Int.{ℤ}
use projectresourcequota.Dict.{lookup, keys}
use projectresourcequota.Api.{Object, ProjectResourceQuota}
use projectresourcequota.Api.Result.{ok, namespace_taken}
use projectresourcequota.Util.{
  object_accessor, add_finalizer, remove_finalizer, add_annotation, remove_annotation, appended,
}
use projectresourcequota.Util.Finalizers.{
  finalizers_of, add_finalizer_once, remove_finalizer_all, remove-add_finalizer,
}
use projectresourcequota.Util.Annotations.{annotation_of, annotation_update}
use projectresourcequota.Webhook.Project.{
  default, resource_name_list, resource_name_map, check_namespace, check_namespaces, check_projects,
  validate_namespace, validate_resource_name, validate_create, validate_update,
}
use projectresourcequota.Webhook.Project.Namespaces.{
  IsNoConflict, Conflict, validate_namespace_iff, validate_namespace-Conflict,
}
use projectresourcequota.Webhook.Project.Names.{
  IsSupported, IsWithin, validate_resource_name_iff, validate_create_iff, validate_update_iff,
}
use projectresourcequota.Webhook.Project.Registry.{
  empty, next, Step, create, IsSound, Reach-IsSound,
}
use projectresourcequota.Samples.{
  exact, meta_of, annotated_meta, plain, reader_of, team_a, team_b, teams,
}

validate_namespace_iff_example :
    (validate_namespace teams "c" ("c1" ∷ []) ≡ ok tt)
    ↔ All (IsNoConflict "c" ("c1" ∷ [])) (team_b ∷ team_a ∷ [])
validate_namespace_iff_example = validate_namespace_iff teams "c" ("c1" ∷ []) refl

validate_namespace-Conflict_example :
    Conflict "c" ("c1" ∷ "a2" ∷ []) (team_b ∷ team_a ∷ []) (namespace_taken "a2" "a")
unfolding validate_namespace
validate_namespace-Conflict_example =
    validate_namespace-Conflict teams "c" ("c1" ∷ "a2" ∷ []) refl (namespace_taken "a2" "a") refl

validate_resource_name_iff_example :
    (validate_resource_name team_a.spec.hard ≡ ok tt) ↔ All IsSupported (keys team_a.spec.hard)
validate_resource_name_iff_example = validate_resource_name_iff team_a.spec.hard

validate_create_iff_example : (validate_create teams team_b ≡ ok tt) ↔ (
    All (IsNoConflict "b" ("b1" ∷ [])) (team_b ∷ team_a ∷ [])
    × All IsSupported (keys team_b.spec.hard))
validate_create_iff_example = validate_create_iff teams refl team_b

validate_update_iff_example : (validate_update teams team_a team_a ≡ ok tt) ↔ (
    All (IsNoConflict "a" ("a1" ∷ "a2" ∷ [])) (team_b ∷ team_a ∷ [])
    × (All IsSupported (keys team_a.spec.hard) × All (IsWithin team_a) resource_name_list))
validate_update_iff_example = validate_update_iff teams refl team_a team_a

-- Two projects are created one after the other, the first without a finalizer.
abbrev bare_a : ProjectResourceQuota ℤ
bare_a = record team_a { meta = meta_of "a" "" }

first-Step : Step [] (team_a ∷ [])
unfolding default add_finalizer appended validate_create validate_namespace check_projects
    validate_resource_name resource_name_map lookup
first-Step = create (reader_of []) bare_a team_a tt refl refl refl

false_is_not_true : false ≢ true
false_is_not_true h = cc

other_names : ◌≢◌ {A = String} "b" "a"
other_names e = false_is_not_true ((eq_iff "b" "a").1 e)

second-Step : Step (team_a ∷ []) (team_b ∷ team_a ∷ [])
unfolding default add_finalizer appended validate_create validate_namespace check_projects
    check_namespaces check_namespace validate_resource_name resource_name_map lookup
second-Step = create (reader_of (team_a ∷ [])) team_b team_b (other_names, tt) refl refl refl

-- A webhook whose cache does not hold the first project yet accepts another of its namespaces.
abbrev clashing : ProjectResourceQuota ℤ
clashing = record team_b { spec = record team_b.spec { namespaces = "a1" ∷ [] } }

stale_Step : Step (team_a ∷ []) (clashing ∷ team_a ∷ [])
unfolding default add_finalizer appended validate_create validate_namespace check_projects
    check_namespaces check_namespace validate_resource_name resource_name_map lookup
stale_Step = create (reader_of []) clashing clashing (other_names, tt) refl refl refl

stale_clash : ¬ IsSound (clashing ∷ team_a ∷ [])
stale_clash sound = cc (sound.partition.0.0 "a1")

Reach-IsSound_example : IsSound (team_b ∷ team_a ∷ [])
unfolding first-Step second-Step
Reach-IsSound_example = Reach-IsSound (next (next empty first-Step) second-Step) ((tt, refl), refl)

abbrev guarded : Object (Unit {0})
guarded = plain (record (annotated_meta "x" "a2" "a") { finalizers = "f" ∷ "g" ∷ "f" ∷ [] })

remove_finalizer_all_example :
    (obj' : Object (Unit {0})) × (remove_finalizer {Q = ℤ} "f" guarded ≡ ok obj')
    × ((f : String)
        → contains f (finalizers_of obj') ≡ (not ("f" == f) && contains f (finalizers_of guarded)))
remove_finalizer_all_example = remove_finalizer_all "f" guarded refl

add_finalizer_once_example :
    (obj' obj'' : Object (Unit {0})) × (add_finalizer {Q = ℤ} "h" guarded ≡ ok obj')
    × (add_finalizer {Q = ℤ} "h" obj' ≡ ok obj'')
    × ((f : String)
        → contains f (finalizers_of obj') ≡ ("h" == f || contains f (finalizers_of guarded)))
    × (finalizers_of obj'' ≡ finalizers_of obj')
add_finalizer_once_example = add_finalizer_once "h" guarded refl

remove-add_finalizer_example :
    (obj' obj'' : Object (Unit {0})) × (add_finalizer {Q = ℤ} "h" guarded ≡ ok obj')
    × (remove_finalizer {Q = ℤ} "h" obj' ≡ ok obj'')
    × (finalizers_of obj'' ≡ finalizers_of guarded)
remove-add_finalizer_example = remove-add_finalizer "h" guarded refl refl

annotation_update_example :
    (obj' obj'' : Object (Unit {0})) × (add_annotation {Q = ℤ} guarded "project-resource-quota" "b"
      ≡ ok obj')
    × (remove_annotation {Q = ℤ} guarded "project-resource-quota" ≡ ok obj'')
    × ((j : String)
        → annotation_of obj' j
          ≡ (if "project-resource-quota" == j then some "b" else annotation_of guarded j))
    × ((j : String)
        → annotation_of obj'' j
          ≡ (if "project-resource-quota" == j then none else annotation_of guarded j))
annotation_update_example = annotation_update guarded "project-resource-quota" "b" refl
