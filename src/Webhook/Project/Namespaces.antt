-- ===== src/Webhook/Project/Namespaces.antt =====
-- `validate_namespace` accepts exactly the namespaces that no other project lists, and what it
-- reports is a conflict.
use projectresourcequota.Prelude.{
  String, ◌≡◌, ◌≢◌, refl, ap, ◌∙◌, ◌↔◌, ◌⊎◌, inl, inr, Bool, true, false, ◌||◌, List, [], ◌∷◌, ◌++◌,
  ◌==◌, eq_iff, contains, All, ShareNone, arith, Bool-cases, if◌then◌else◌,
}
use projectresourcequota.Api.{ProjectResourceQuota}
use projectresourcequota.Api.Result.{Error, Verdict, ok, err, namespace_taken}
use projectresourcequota.Api.Client.{Reader}
use projectresourcequota.Webhook.Project.{
  check_namespace, check_namespaces, check_projects, validate_namespace,
}

-- Whether two lists of names have one in common.
unfoldable pub meets : List String → List String → Bool
meets [] ys = false
meets (x ∷ xs) ys = contains x ys || meets xs ys

pub ShareNone-of_meets : (xs ys : List String) → meets xs ys ≡ false → ShareNone xs ys
unfolding meets
ShareNone-of_meets [] ys h n = refl
ShareNone-of_meets (x ∷ xs) ys h n =
    ground (arith, ShareNone-of_meets xs ys (ground arith) n, eq_iff x n)

meets_of_ShareNone : (xs ys : List String) → ShareNone xs ys → meets xs ys ≡ false
unfolding meets
meets_of_ShareNone [] ys h = refl
meets_of_ShareNone (x ∷ xs) ys h =
    ground (arith, h x, eq_iff x x, meets_of_ShareNone xs ys (λ n. ground (arith, h n)))

module _ {Q : Type 0} where
  check_namespace_lem :
      (other namespace : String) (nss : List String)
      → check_namespace {Q = Q} other namespace nss
        ≡ (if contains namespace nss then err (namespace_taken namespace other) else ok tt)
  unfolding check_namespace
  check_namespace_lem other namespace [] = refl
  check_namespace_lem other namespace (x ∷ xs) =
      ground (arith, check_namespace_lem other namespace xs, eq_iff namespace x, eq_iff x namespace)

  check_namespaces_ok :
      (other : String) (xs nss : List String)
      → meets xs nss ≡ false
      → check_namespaces {Q = Q} other xs nss ≡ ok tt
  unfolding check_namespaces meets
  check_namespaces_ok other [] nss h = refl
  check_namespaces_ok other (x ∷ xs) nss h =
      ground (arith, check_namespace_lem other x nss, check_namespaces_ok other xs nss)

  -- A conflict that is found is in both lists.
  check_namespaces_err :
      (other : String) (xs nss : List String)
      → meets xs nss ≡ true
      → (ns : String) × (check_namespaces {Q = Q} other xs nss ≡ err (namespace_taken ns other))
        × (contains ns xs ≡ true)
        × (contains ns nss ≡ true)
  unfolding check_namespaces meets
  check_namespaces_err other [] nss h = absurd (cc)
  check_namespaces_err other (x ∷ xs) nss h = elim (Bool-cases (contains x nss)) [
    | inl here ↦
        (x, ground (arith, check_namespace_lem other x nss), ground (arith, eq_iff x x), here)
    | inr there ↦
        let (ns, e, ex, ey) = check_namespaces_err other xs nss (ground arith) in
        (ns, ground (arith, check_namespace_lem other x nss), ground arith, ey)
  ]

-- Another project than the one of that name, or one that lists none of the namespaces.
abbrev pub IsNoConflict : {Q : Type 0} → String → List String → ProjectResourceQuota Q → Type 0
IsNoConflict name nss prq = (name ≡ prq.meta.name) ⊎ ShareNone prq.spec.namespaces nss

-- What a refusal reports: a project of another name in the list, and a namespace that it has in
-- common with the given ones.
pub record Conflict {Q : Type 0} (name : String) (nss : List String)
    (items : List (ProjectResourceQuota Q)) (e : Error Q) : Type 0 where
  pub before : List (ProjectResourceQuota Q)
  pub prq : ProjectResourceQuota Q
  pub after : List (ProjectResourceQuota Q)
  pub ns : String
  pub listed : items ≡ before ++ prq ∷ after
  pub reported : e ≡ namespace_taken ns prq.meta.name
  pub is_other : name ≢ prq.meta.name
  pub is_theirs : contains ns prq.spec.namespaces ≡ true
  pub is_ours : contains ns nss ≡ true

module _ {Q : Type 0} (name : String) (nss : List String) where
  check_projects_ok :
      (items : List (ProjectResourceQuota Q))
      → All (IsNoConflict name nss) items
      → check_projects name nss items ≡ ok tt
  unfolding check_projects
  check_projects_ok [] h = refl
  check_projects_ok (p ∷ ps) (inl same, rest) =
      rw ((eq_iff name p.meta.name).1 same) (check_projects_ok ps rest)
  check_projects_ok (p ∷ ps) (inr apart, rest) =
      let free =
        check_namespaces_ok {Q = Q} p.meta.name p.spec.namespaces nss
          (meets_of_ShareNone p.spec.namespaces nss apart) in
      elim (Bool-cases (name == p.meta.name)) [
        | inl same ↦ rw same (check_projects_ok ps rest)
        | inr other ↦ rw (other, free) (check_projects_ok ps rest)
      ]

  later-Conflict :
      (p : ProjectResourceQuota Q) (ps : List (ProjectResourceQuota Q)) {e : Error Q}
      → Conflict name nss ps e
      → Conflict name nss (p ∷ ps) e
  later-Conflict p ps c = record {
    before = p ∷ c.before;
    prq = c.prq;
    after = c.after;
    ns = c.ns;
    listed = ap (λ l. p ∷ l) c.listed;
    reported = c.reported;
    is_other = c.is_other;
    is_theirs = c.is_theirs;
    is_ours = c.is_ours;
  }

  abbrev Outcome : List (ProjectResourceQuota Q) → Type 0
  Outcome items =
      ((check_projects name nss items ≡ ok tt) × All (IsNoConflict name nss) items)
      ⊎ ((e : Error Q) × (check_projects name nss items ≡ err e) × Conflict name nss items e)

  -- A project that passes leaves the outcome to the projects behind it.
  pass :
      (p : ProjectResourceQuota Q) (ps : List (ProjectResourceQuota Q))
      → check_projects name nss (p ∷ ps) ≡ check_projects name nss ps
      → IsNoConflict name nss p
      → Outcome ps
      → Outcome (p ∷ ps)
  pass p ps same none_here (inl (accepted, rest)) = inl (same ∙ accepted, (none_here, rest))
  pass p ps same none_here (inr (e, refused, c)) = inr (e, same ∙ refused, later-Conflict p ps c)

  check_projects_cases : (items : List (ProjectResourceQuota Q)) → Outcome items
  unfolding check_projects
  check_projects_cases [] = inl (refl, tt)
  check_projects_cases (p ∷ ps) =
      let later = check_projects_cases ps in
      elim (Bool-cases (name == p.meta.name)) [
        | inl same ↦ pass p ps (rw same) (inl ((eq_iff name p.meta.name).0 same)) later
        | inr other ↦ elim (Bool-cases (meets p.spec.namespaces nss)) [
          | inl met ↦
              let (ns, e, theirs, ours) =
                check_namespaces_err {Q = Q} p.meta.name p.spec.namespaces nss met in
              inr (
                namespace_taken ns p.meta.name,
                rw (other, e),
                record {
                  before = [];
                  prq = p;
                  after = ps;
                  ns = ns;
                  listed = refl;
                  reported = refl;
                  is_other = λ q. cc (other, (eq_iff name p.meta.name).1 q);
                  is_theirs = theirs;
                  is_ours = ours;
                },
              )
          | inr apart ↦
              pass p ps
                (rw (other, check_namespaces_ok {Q = Q} p.meta.name p.spec.namespaces nss apart))
                (inr (ShareNone-of_meets p.spec.namespaces nss apart)) later
        ]
      ]

module _ {Q : Type 0} (reader : Reader Q) (name : String) (nss : List String)
    {items : List (ProjectResourceQuota Q)} (listed : reader.list ≡ ok items) where
  validate_namespace-list : validate_namespace reader name nss ≡ check_projects name nss items
  unfolding validate_namespace
  validate_namespace-list = rw listed

  -- When the projects can be listed, the namespaces of a project are accepted exactly if each
  -- listed project either has its name or lists none of these namespaces.
  pub validate_namespace_iff :
      (validate_namespace reader name nss ≡ ok tt) ↔ All (IsNoConflict name nss) items
  validate_namespace_iff = rw validate_namespace-list (sound, check_projects_ok name nss items)
    where
      sound : check_projects name nss items ≡ ok tt → All (IsNoConflict name nss) items
      sound h = elim (check_projects_cases name nss items) [
        | inl (_, none_shared) ↦ none_shared
        | inr (e, refused, _) ↦ absurd (cc (h, refused))
      ]

  -- When the projects can be listed and the namespaces are refused, the error names a namespace
  -- and the name of a project: a listed project of another name that lists this namespace, which
  -- is one of those given.
  pub validate_namespace-Conflict :
      (e : Error Q) → validate_namespace reader name nss ≡ err e → Conflict name nss items e
  validate_namespace-Conflict e h = elim (check_projects_cases name nss items) [
    | inl (accepted, _) ↦ absurd (cc (h, accepted, validate_namespace-list))
    | inr (e', refused, c) ↦ rw (same_error e' (cc (h, refused, validate_namespace-list))) c
  ]
    where
      same_error : (e' : Error Q) → ◌≡◌ {A = Verdict Q} (err e) (err e') → e ≡ e'
      same_error e' q = cc
