-- ===== src/Memory/Projects.antt =====
-- The deep copies of a project and of a list of projects.
use projectresourcequota.Prelude.{
  ◌<◌, String, ◌≡◌, refl, sym, ap, ◌∙◌, Option, none, some, List, [], ◌∷◌, All, All-map, arith,
}
use projectresourcequota.Quantity.{Quantity}
use projectresourcequota.Api.{ObjectMeta, ResourceList}
use projectresourcequota.Memory.{
  TypeMeta, Address, ProjectValue, ListValue, Memory, Agree, new_projects,
}
use projectresourcequota.Memory.DeepCopy.{
  spec_deep_copy_into, status_deep_copy_into, project_deep_copy_into, copy_items, copy_projects,
  project_list_deep_copy_into, project_list_deep_copy_object, project_list_deep_copy, new_copy,
}
use projectresourcequota.Memory.Copied.{
  IsMaps, IsStored, IsCopied, IsStored-later, IsCopied-both, Agree-chain, Agree-narrow,
}
use projectresourcequota.Memory.Apart.{
  put-at, put-below, spec_content, status_content, spec-IsCopied, status-IsCopied,
}

abbrev pub ProjectContent : Type 0 → Type 0
ProjectContent Q =
    (TypeMeta × ObjectMeta)
    × ((Option (List String) × Option (ResourceList Q))
        × (Option (ResourceList Q) × Option (List String)))

module _ {Q : Type 0} where
  -- What a project in memory stands for: its structs with the slices and maps in place.
  abbrev pub project_content : ProjectValue → Memory Q → ProjectContent Q
  project_content v m = ((v.type_meta, v.meta), (spec_content v.spec m, status_content v.status m))

  abbrev pub items_content : List ProjectValue → Memory Q → List (ProjectContent Q)
  items_content [] m = []
  items_content (item ∷ rest) m = project_content item m ∷ items_content rest m

  abbrev pub projects_content : Option Address → Memory Q → Option (List (ProjectContent Q))
  projects_content none m = none
  projects_content (some a) m = some (items_content (m.projects a) m)

  abbrev pub list_content :
      {L : Type 0} → ListValue L → Memory Q → (TypeMeta × L) × Option (List (ProjectContent Q))
  list_content v m = ((v.type_meta, v.meta), projects_content v.items m)

  abbrev pub AllStored : List ProjectValue → Memory Q → Type 0
  AllStored items m = All (λ item. IsStored project_content item m) items

  items-IsStored :
      (items : List ProjectValue) (m : Memory Q)
      → AllStored items m
      → IsStored items_content items m
  items-IsStored [] m stored w agree = refl
  items-IsStored (item ∷ rest) m stored w agree =
      ap (λ c. c ∷ items_content rest w) (stored.0 w agree)
      ∙ ap (λ cs. project_content item m ∷ cs) (items-IsStored rest m stored.1 w agree)

  -- An array of projects in use, whose slices and maps are in use.
  abbrev pub AreStored : Option Address → Memory Q → Type 0
  AreStored none m = Unit
  AreStored (some a) m = (a < m.next) × AllStored (m.projects a) m

module _ {Q : Type 0} ⦃q : Quantity Q⦄ (copy_meta : ObjectMeta → ObjectMeta)
    (copy_meta_lem : (meta : ObjectMeta) → copy_meta meta ≡ meta) where
  pub project-IsCopied :
      (v : ProjectValue) (m : Memory Q)
      → IsMaps m
      → IsStored project_content v m
      → IsCopied project_content v m (project_deep_copy_into copy_meta v m)
  unfolding project_deep_copy_into
  project-IsCopied v m maps stored =
      let first = spec-IsCopied v.spec m maps (λ w agree. ap (λ c. c.1.0.1) (stored w agree)) in
      let (_, later) =
        IsStored-later status_content v.status m (spec_deep_copy_into v.spec m).1 first.grown
          first.kept (λ w agree. ap (λ c. c.1.1) (stored w agree)) in
      let both =
        IsCopied-both spec_content status_content project_content
          (λ a b. record { type_meta = v.type_meta; meta = copy_meta v.meta; spec = a; status = b })
          (λ c d. ((v.type_meta, copy_meta v.meta), (c, d))) (λ a b w. refl) m
          (spec_deep_copy_into v.spec m)
          (status_deep_copy_into v.status (spec_deep_copy_into v.spec m).1)
          (λ w agree. ap (λ c. c.1.1) (stored w agree)) first
          (status-IsCopied v.status (spec_deep_copy_into v.spec m).1 first.maps
            (λ w agree. ap (λ c. c.1) (later w agree))) in
      record {
        grown = both.grown;
        kept = both.kept;
        maps = both.maps;
        same =
            both.same
            ∙ ap (λ x. ((v.type_meta, x), (spec_content v.spec m, status_content v.status m)))
                (copy_meta_lem v.meta);
        own = both.own;
      }

  copy_items-IsCopied :
      (items : List ProjectValue) (m : Memory Q)
      → IsMaps m
      → AllStored items m
      → IsCopied items_content items m (copy_items copy_meta items m)
  unfolding copy_items
  copy_items-IsCopied [] m maps stored = record {
    grown = omega arith;
    kept = record {
      strings = λ a low below. refl;
      projects = λ a low below. refl;
      resources = λ a low below. refl;
    };
    maps = maps;
    same = refl;
    own = λ w agree. refl;
  }
  copy_items-IsCopied (item ∷ rest) m maps stored =
      let first = project-IsCopied item m maps stored.0 in
      let m1 = (project_deep_copy_into copy_meta item m).1 in
      IsCopied-both project_content items_content items_content (λ a b. a ∷ b) (λ c d. c ∷ d)
        (λ a b w. refl) m (project_deep_copy_into copy_meta item m) (copy_items copy_meta rest m1)
        (items-IsStored rest m stored.1) first
        (copy_items-IsCopied rest m1 first.maps (
          All-map (λ x. IsStored project_content x m) (λ x. IsStored project_content x m1) rest
            (λ x here. (IsStored-later project_content x m m1 first.grown first.kept here).1)
            stored.1))

  copy_projects-IsCopied :
      (o : Option Address) (m : Memory Q)
      → IsMaps m
      → AreStored o m
      → IsCopied projects_content o m (copy_projects copy_meta o m)
  unfolding copy_projects
  copy_projects-IsCopied none m maps stored = record {
    grown = omega arith;
    kept = record {
      strings = λ a low below. refl;
      projects = λ a low below. refl;
      resources = λ a low below. refl;
    };
    maps = maps;
    same = refl;
    own = λ w agree. refl;
  }
  copy_projects-IsCopied (some a) m maps stored =
      let items = copy_items-IsCopied (m.projects a) m maps stored.1 in
      let outs = (copy_items copy_meta (m.projects a) m).0 in
      let m1 = (copy_items copy_meta (m.projects a) m).1 in
      let m2 = (new_projects outs m1).1 in
      let step : Agree 0 m1.next m1 m2 = record {
        strings = λ b low below. refl;
        projects = λ b low below. put-below m1.next b outs m1.projects below;
        resources = λ b low below. refl;
      } in
      let kept_outs : items_content outs m2 ≡ items_content outs m1 =
        items.own m2 (Agree-narrow (omega arith) (omega arith) step) in
      record {
        grown = omega (arith, items.grown);
        kept = Agree-chain items.grown items.kept step;
        maps = items.maps;
        same = ap some (
            ap (λ ps. items_content ps m2) (put-at m1.next outs m1.projects)
            ∙ kept_outs
            ∙ items.same);
        own = λ w agree. ap some (
            ap (λ ps. items_content ps w)
              (agree.projects m1.next items.grown (omega arith) ∙ put-at m1.next outs m1.projects)
            ∙ items.own w (Agree-chain (omega arith) step agree)
            ∙ sym kept_outs
            ∙ ap (λ ps. items_content ps m2) (sym (put-at m1.next outs m1.projects)));
      }

  -- In a memory whose maps are maps and that has the list's slices and maps in use: a deep copy of
  -- a list of projects that is not nil succeeds, every cell in use stays as it is, and the copy
  -- stands for the same projects and refers to new cells only, so no write to another cell is seen
  -- in it. The copy of the metadata is taken to be one.
  pub project_list_deep_copy-IsCopied :
      {L : Type 0} (copy_list_meta : L → L)
      (copy_list_meta_lem : (meta : L) → copy_list_meta meta ≡ meta) (v : ListValue L)
      (m : Memory Q)
      → IsMaps m
      → AreStored v.items m
      → (out : ListValue L) × (m' : Memory Q) × (project_list_deep_copy_object copy_meta
            copy_list_meta
            (some v)
            m
          ≡ (some out, m'))
        × IsCopied list_content v m (out, m')
  unfolding project_list_deep_copy_object project_list_deep_copy new_copy
      project_list_deep_copy_into
  project_list_deep_copy-IsCopied copy_list_meta copy_list_meta_lem v m maps stored =
      let items = copy_projects-IsCopied v.items m maps stored in
      (
        _,
        _,
        refl,
        record {
          grown = items.grown;
          kept = items.kept;
          maps = items.maps;
          same =
              ap
                (λ x. (
                  (v.type_meta, x),
                  projects_content (copy_projects copy_meta v.items m).0
                      (copy_projects copy_meta v.items m).1,
                ))
                (copy_list_meta_lem v.meta)
              ∙ ap (λ c. ((v.type_meta, v.meta), c)) items.same;
          own = λ w agree. ap (λ c. ((v.type_meta, copy_list_meta v.meta), c)) (items.own w agree);
        },
      )
