-- ===== src/Memory/DeepCopy.antt =====
-- api/v1/zz_generated.deepcopy.go. `in` and `out` are different variables; what is assigned to
-- `out` is the result.
use projectresourcequota.Prelude.{Option, none, some, List, [], ◌∷◌}
use projectresourcequota.Dict.{insert}
use projectresourcequota.Quantity.{Quantity}
use projectresourcequota.Api.{ObjectMeta, ResourceList}
use projectresourcequota.Memory.{
  Address, SpecValue, StatusValue, ProjectValue, ListValue, Memory, new_strings, new_resources,
  new_projects,
}

-- nil of nil, and else a new struct
unfoldable pub new_copy : {V M : Type 0} → (V → M → V × M) → Option V → M → Option V × M
new_copy into none m = (none, m)
new_copy into (some value) m = let (out, m1) = into value m in (some out, m1)

-- `if c := in.DeepCopy(); c != nil { return c }; return nil`
abbrev pub or_nil : {V M : Type 0} → Option V × M → Option V × M
or_nil (some c, m) = (some c, m)
or_nil (none, m) = (none, m)

module _ {Q : Type 0} where
  -- `if in.Namespaces != nil { … }`
  unfoldable pub copy_strings : Option Address → Memory Q → Option Address × Memory Q
  copy_strings none m = (none, m)
  copy_strings (some a) m = new_strings (m.strings a) m

module _ {Q : Type 0} ⦃q : Quantity Q⦄ where
  -- `for key, val := range *in { (*out)[key] = val.DeepCopy() }`
  unfoldable pub copy_entries : ResourceList Q → ResourceList Q → ResourceList Q
  copy_entries out [] = out
  copy_entries out ((key, val) ∷ rest) = copy_entries (insert key (q.deep_copy val) out) rest

  -- `if in.Hard != nil { … }`
  unfoldable pub copy_resources : Option Address → Memory Q → Option Address × Memory Q
  unfolding copy_entries
  copy_resources none m = (none, m)
  copy_resources (some a) m = new_resources (copy_entries [] (m.resources a)) m

  unfoldable pub spec_deep_copy_into : SpecValue → Memory Q → SpecValue × Memory Q
  unfolding copy_resources copy_strings
  spec_deep_copy_into value m =
      let (namespaces, m1) = copy_strings value.namespaces m in
      let (hard, m2) = copy_resources value.hard m1 in
      (record { namespaces = namespaces; hard = hard }, m2)

  unfoldable pub status_deep_copy_into : StatusValue → Memory Q → StatusValue × Memory Q
  unfolding copy_resources copy_strings
  status_deep_copy_into value m =
      let (used, m1) = copy_resources value.used m in
      let (namespaces, m2) = copy_strings value.namespaces m1 in
      (record { used = used; namespaces = namespaces }, m2)

  -- `copy_meta` is `ObjectMeta.DeepCopyInto`, and `copy_list_meta` is `ListMeta.DeepCopyInto`.
  module _ (copy_meta : ObjectMeta → ObjectMeta) where
    unfoldable pub project_deep_copy_into : ProjectValue → Memory Q → ProjectValue × Memory Q
    unfolding spec_deep_copy_into status_deep_copy_into
    project_deep_copy_into value m =
        let (spec, m1) = spec_deep_copy_into value.spec m in
        let (status, m2) = status_deep_copy_into value.status m1 in
        (
          record {
            type_meta = value.type_meta;
            meta = copy_meta value.meta;
            spec = spec;
            status = status;
          },
          m2,
        )

    -- The loop over the items.
    unfoldable pub copy_items : List ProjectValue → Memory Q → List ProjectValue × Memory Q
    unfolding project_deep_copy_into
    copy_items [] m = ([], m)
    copy_items (item ∷ rest) m =
        let (out, m1) = project_deep_copy_into item m in
        let (outs, m2) = copy_items rest m1 in (out ∷ outs, m2)

    -- `if in.Items != nil { … }`: the array of the copies.
    unfoldable pub copy_projects : Option Address → Memory Q → Option Address × Memory Q
    unfolding copy_items
    copy_projects none m = (none, m)
    copy_projects (some a) m = let (outs, m1) = copy_items (m.projects a) m in new_projects outs m1

    unfoldable pub project_list_deep_copy_into :
        {L : Type 0} → (L → L) → ListValue L → Memory Q → ListValue L × Memory Q
    unfolding copy_projects
    project_list_deep_copy_into copy_list_meta value m =
        let (items, m1) = copy_projects value.items m in
        (
          record { type_meta = value.type_meta; meta = copy_list_meta value.meta; items = items },
          m1,
        )

  unfoldable pub spec_deep_copy : Option SpecValue → Memory Q → Option SpecValue × Memory Q
  unfolding new_copy spec_deep_copy_into
  spec_deep_copy value m = new_copy spec_deep_copy_into value m

  unfoldable pub status_deep_copy : Option StatusValue → Memory Q → Option StatusValue × Memory Q
  unfolding new_copy status_deep_copy_into
  status_deep_copy value m = new_copy status_deep_copy_into value m

  module _ (copy_meta : ObjectMeta → ObjectMeta) where
    unfoldable pub project_deep_copy :
        Option ProjectValue → Memory Q → Option ProjectValue × Memory Q
    unfolding new_copy project_deep_copy_into
    project_deep_copy value m = new_copy (project_deep_copy_into copy_meta) value m

    -- A struct for the interface, or nil.
    unfoldable pub project_deep_copy_object :
        Option ProjectValue → Memory Q → Option ProjectValue × Memory Q
    unfolding project_deep_copy
    project_deep_copy_object value m = or_nil (project_deep_copy value m)

    unfoldable pub project_list_deep_copy :
        {L : Type 0} → (L → L) → Option (ListValue L) → Memory Q → Option (ListValue L) × Memory Q
    unfolding new_copy project_list_deep_copy_into
    project_list_deep_copy copy_list_meta value m =
        new_copy (project_list_deep_copy_into copy_meta copy_list_meta) value m

    unfoldable pub project_list_deep_copy_object :
        {L : Type 0} → (L → L) → Option (ListValue L) → Memory Q → Option (ListValue L) × Memory Q
    unfolding project_list_deep_copy
    project_list_deep_copy_object copy_list_meta value m =
        or_nil (project_list_deep_copy copy_list_meta value m)
