-- ===== src/Controller/Strip/Refused.antt =====
-- `remove_annotation_from_objects` against the program's own webhooks: the API server passes each
-- update of the controller to them, and that of services refuses a service without the annotation.
use projectresourcequota.Prelude.{
  String, ◌≡◌, ◌≢◌, refl, sym, ap, subst, ◌∙◌, true, false, Option, none, some, List, [], ◌∷◌, ◌++◌,
  All, All-middle, contains, Bool-cases, inl, inr,
}
use projectresourcequota.Dict.{is_found}
use projectresourcequota.Quantity.{Quantity}
use projectresourcequota.Api.{Kind, Object, Body, Service, ProjectResourceQuota}
use projectresourcequota.Api.Client.{Reader}
use projectresourcequota.Api.Result.{Error, Result, Verdict, ok, err}
use projectresourcequota.Api.Result
use projectresourcequota.Webhook.Service
use projectresourcequota.Webhook.Annotator.Owner.{IsForeign}
use projectresourcequota.Webhook.Counting.{annotated_project}
use projectresourcequota.Webhook.Service.Unmanaged.{unmanaged_service}
use projectresourcequota.Util.{is_annotation_exists}
use projectresourcequota.Controller.Cluster.{Client, reads}
use projectresourcequota.Controller.Cluster.Laws.{
  IsStore, kind_cases, bind_ok, Preserves, then-Preserves,
}
use projectresourcequota.Controller.Strip.{
  StringSets, strip_object, strip_items, strip_kind, strip_namespace,
  remove_annotation_from_objects,
}
use projectresourcequota.Controller.Strip.Marks.{
  is_marked, IsFree, AllListed, without_annotation, without_annotation-namespace,
  without_annotation-IsFree,
}
use projectresourcequota.Controller.Strip.Cleared.{strip_object_cases}
use projectresourcequota.Controller.Strip.Namespaces.{
  strip_namespace-Preserves, strip_namespaces-Preserves, remove_annotation_clears,
}

-- What the webhooks make of an update of a service: the annotator, and then the validator.
abbrev pub admit_update :
    {Q B : Type 0} ⦃q : Quantity Q⦄ → Reader Q → Service B → Service B → Verdict Q
admit_update reader old_svc svc =
    Result.◌>>=◌ (Service.default reader svc) (λ svc'. Service.validate_update reader old_svc svc')

-- A client of an API server that asks the webhooks: `projects` is what they read there. An update
-- of a service that they refuse, whatever the stored version, does not succeed, and an update of
-- an object changes no project.
pub record IsAdmitting {Q B S : Type 0} ⦃q : Quantity Q⦄ (client : Client Q B S)
    (projects : S → Reader Q) : Type 0 where
  pub update-refused :
      (svc : Service B) (s s' : S) (e : Error Q)
      → ((old_svc : Service B) → admit_update (projects s) old_svc svc ≡ err e)
      → client.update Kind.service svc s ≢ (ok tt, s')
  pub update-projects :
      (k : Kind) (obj : Object (Body B k)) (s s' : S)
      → client.update k obj s ≡ (ok tt, s')
      → projects s' ≡ projects s

none_of_lookup : {V : Type 0} (o : Option V) → is_found o ≡ false → o ≡ none
none_of_lookup none h = refl
none_of_lookup (some v) h = absurd (cc)

unannotated_of_free : {B : Type 0} (obj : Object B) → IsFree obj → annotated_project obj ≡ none
unfolding annotated_project is_annotation_exists
unannotated_of_free obj free = none_of_lookup _ free

module _ {Q B S : Type 0} ⦃q : Quantity Q⦄ (client : Client Q B S) (store : IsStore client)
    (projects : S → Reader Q) (admitting : IsAdmitting client projects)
    (items : List (ProjectResourceQuota Q)) (ns : String) (listed : List (Service B)) where
  -- The state has these services in a namespace, and these projects.
  abbrev IsHeld : S → Type 0
  IsHeld s = (client.list Kind.service ns s ≡ ok listed) × ((projects s).list ≡ ok items)

  service_refused :
      (svc : Service B) (s s' : S)
      → IsHeld s
      → All (IsForeign svc.meta.namespace) items
      → client.update Kind.service (without_annotation svc) s ≢ (ok tt, s')
  service_refused svc s s' held foreign =
      admitting.update-refused (without_annotation svc) s s' _
        (unmanaged_service (projects s) (without_annotation svc) items held.1
          (subst (λ n. All (IsForeign n) items) (sym (without_annotation-namespace svc)) foreign)
          (unannotated_of_free (without_annotation svc) (without_annotation-IsFree svc))).1

  update-IsHeld :
      (k : Kind) (obj : Object (Body B k)) (s s' : S)
      → All (IsForeign obj.meta.namespace) items
      → client.update k (without_annotation obj) s ≡ (ok tt, s')
      → IsHeld s
      → IsHeld s'
  update-IsHeld k obj s s' foreign updated held = elim (kind_cases k Kind.service) [
    | inl same ↦ absurd (
        subst
          (λ x.
            (o : Object (Body B x))
            → All (IsForeign o.meta.namespace) items
            → client.update x (without_annotation o) s ≢ (ok tt, s'))
          (sym same) (λ svc away. service_refused svc s s' held away) obj foreign updated)
    | inr differ ↦ (
      store.update-other k (without_annotation obj) s s' Kind.service ns updated differ ∙ held.0,
      ap (λ r. r.list) (admitting.update-projects k (without_annotation obj) s s' updated) ∙ held.1,
    )
  ]

  strip_object-IsHeld :
      (k : Kind) (obj : Object (Body B k))
      → All (IsForeign obj.meta.namespace) items
      → Preserves IsHeld (strip_object client k obj)
  strip_object-IsHeld k obj foreign s s' h held =
      elim (strip_object_cases client store k obj s s' h) [
        | inl (_, unchanged) ↦ subst IsHeld unchanged held
        | inr (_, updated) ↦ update-IsHeld k obj s s' foreign updated held
      ]

  strip_items-IsHeld :
      (k : Kind) (namespace : String)
      → All (IsForeign namespace) items
      → (objs : List (Object (Body B k))) → All (λ o. o.meta.namespace ≡ namespace) objs
      → Preserves IsHeld (strip_items client k objs)
  unfolding strip_items
  strip_items-IsHeld k namespace foreign [] there s s' h held = subst IsHeld (ap (λ p. p.1) h) held
  strip_items-IsHeld k namespace foreign (obj ∷ rest) there s s' h held =
      then-Preserves IsHeld (strip_object client k obj) (strip_items client k rest)
        (strip_object-IsHeld k obj (subst (λ n. All (IsForeign n) items) (sym there.0) foreign))
        (strip_items-IsHeld k namespace foreign rest there.1) s s' h held

  strip_kind-IsHeld :
      (namespace : String)
      → All (IsForeign namespace) items
      → (k : Kind) → Preserves IsHeld (strip_kind client namespace k)
  unfolding strip_kind
  strip_kind-IsHeld namespace foreign k s s' h held =
      let (objs, s1, first, later) =
        bind_ok (reads (client.list k namespace)) (strip_items client k) tt s s' h in
      strip_items-IsHeld k namespace foreign objs
        (store.list-namespace k namespace s objs (ap (λ p. p.0) first)) s1 s' later
        (subst IsHeld (ap (λ p. p.1) first) held)

  strip_namespaces-IsHeld :
      (nss : List String)
      → All (λ n. All (IsForeign n) items) nss
      → All (λ n. Preserves IsHeld (strip_namespace client n)) nss
  strip_namespaces-IsHeld [] foreign = tt
  strip_namespaces-IsHeld (n ∷ rest) foreign = (
    strip_namespace-Preserves client IsHeld n (strip_kind-IsHeld n foreign.0),
    strip_namespaces-IsHeld rest foreign.1,
  )

  remove_annotation-IsHeld :
      {N : Type 0} (sets : StringSets N) (removed : N)
      → All (λ n. All (IsForeign n) items) (sets.list removed)
      → Preserves IsHeld (remove_annotation_from_objects client sets removed)
  unfolding remove_annotation_from_objects
  remove_annotation-IsHeld sets removed foreign s s' h held =
      elim (Bool-cases (sets.is_empty removed)) [
        | inl empty ↦ subst IsHeld (ap (λ p. p.1) (rw empty at h)) held
        | inr full ↦
            strip_namespaces-Preserves client IsHeld (sets.list removed)
              (strip_namespaces-IsHeld (sets.list removed) foreign) s s' (rw full at h) held
      ]

module _ {Q B S N : Type 0} ⦃q : Quantity Q⦄ (client : Client Q B S) (store : IsStore client)
    (projects : S → Reader Q) (admitting : IsAdmitting client projects) (sets : StringSets N) where
  -- On an API server that asks the program's webhooks: `remove_annotation_from_objects` cannot
  -- succeed if there is an annotated service in one of the namespaces of the set, and no project
  -- that is listed there owns any of these namespaces.
  pub remove_annotation_refused :
      (removed : N) (s s' : S) (items : List (ProjectResourceQuota Q)) (ns : String)
      (before : List (Service B)) (svc : Service B) (after : List (Service B))
      → (projects s).list ≡ ok items
      → All (λ n. All (IsForeign n) items) (sets.list removed)
      → contains ns (sets.list removed) ≡ true
      → client.list Kind.service ns s ≡ ok (before ++ svc ∷ after)
      → is_marked svc ≡ true
      → remove_annotation_from_objects client sets removed s ≢ (ok tt, s')
  remove_annotation_refused removed s s' items ns before svc after read foreign inside found marked
        done =
      let held =
        remove_annotation-IsHeld client store projects admitting items ns (before ++ svc ∷ after)
          sets removed foreign s s' done (found, read) in
      let cleared =
        subst (AllListed IsFree) held.0
          (remove_annotation_clears client store sets removed s s' done ns inside Kind.service) in
      let free = All-middle IsFree before svc after cleared in absurd (cc (free, marked))
