-- ===== src/Controller/Cluster/Laws.antt =====
-- What the controller relies on in its client, as the API server documents it: a successful update
-- stores the object in the place of the one with its namespace and name, and changes no other; a
-- list restricted to a namespace has objects of that namespace only.
-- Admission that changes an update on its way to the store is left out: for the updates of the
-- controller, that is the case where no other project owns the namespace.
use projectresourcequota.Prelude.{
  ℕ, String, ◌≡◌, ◌≢◌, refl, sym, ap, ◌∙◌, ◌⊎◌, inl, inr, Bool, ◌&&◌, ◌==◌, List, [], ◌∷◌, All,
  if◌then◌else◌, ltb, ◌||◌, Bool-cases, arith,
}
use projectresourcequota.Api.{Kind, Object, Body, ProjectResourceQuota}
use projectresourcequota.Api.Result.{Error, Result, ok, err}
use projectresourcequota.Controller.Cluster.{Client, Action, continue, ◌>>=◌, ◌>>◌}

-- Whether two objects of a kind are versions of the same one.
abbrev pub is_same : {B : Type 0} → Object B → Object B → Bool
is_same obj obj' = obj.meta.namespace == obj'.meta.namespace && obj.meta.name == obj'.meta.name

-- A list after an object was stored.
abbrev pub stored : {B : Type 0} → Object B → List (Object B) → List (Object B)
stored obj [] = []
stored obj (o ∷ rest) = (if is_same obj o then obj else o) ∷ stored obj rest

abbrev pub listed_after :
    {Q B : Type 0} → Object B → Result Q (List (Object B)) → Result Q (List (Object B))
listed_after obj (ok items) = ok (stored obj items)
listed_after obj (err e) = err e

pub record IsStore {Q B S : Type 0} (client : Client Q B S) : Type 0 where
  pub update-list :
      (k : Kind) (obj : Object (Body B k)) (s s' : S) (ns : String)
      → client.update k obj s ≡ (ok tt, s')
      → client.list k ns s' ≡ listed_after obj (client.list k ns s)
  pub update-other :
      (k : Kind) (obj : Object (Body B k)) (s s' : S) (other : Kind) (ns : String)
      → client.update k obj s ≡ (ok tt, s')
      → k ≢ other
      → client.list other ns s' ≡ client.list other ns s
  pub list-namespace :
      (k : Kind) (ns : String) (s : S) (items : List (Object (Body B k)))
      → client.list k ns s ≡ ok items
      → All (λ o. o.meta.namespace ≡ ns) items

-- No call of the client fails.
pub record IsReliable {Q B S : Type 0} (client : Client Q B S) : Type 0 where
  pub list-ok :
      (k : Kind) (ns : String) (s : S)
      → (items : List (Object (Body B k))) × (client.list k ns s ≡ ok items)
  pub update-ok :
      (k : Kind) (obj : Object (Body B k)) (s : S)
      → (s' : S) × (client.update k obj s ≡ (ok tt, s'))
  pub update_project-ok :
      (prq : ProjectResourceQuota Q) (s : S)
      → (s' : S) × (client.update_project prq s ≡ (ok tt, s'))
  pub update_status-ok :
      (prq : ProjectResourceQuota Q) (s : S) → (s' : S) × (client.update_status prq s ≡ (ok tt, s'))

abbrev pub place : Kind → ℕ
place Kind.config_map = 0
place Kind.persistent_volume_claim = 1
place Kind.pod = 2
place Kind.replication_controller = 3
place Kind.resource_quota = 4
place Kind.secret = 5
place Kind.service = 6

abbrev kind_at : ℕ → Kind
kind_at n =
    if ltb n 1
    then Kind.config_map
    else if ltb n 2
    then Kind.persistent_volume_claim
    else if ltb n 3
    then Kind.pod
    else if ltb n 4
    then Kind.replication_controller
    else if ltb n 5
    then Kind.resource_quota
    else if ltb n 6
    then Kind.secret
    else Kind.service

kind_at-place : (k : Kind) → kind_at (place k) ≡ k
kind_at-place Kind.config_map = refl
kind_at-place Kind.persistent_volume_claim = refl
kind_at-place Kind.pod = refl
kind_at-place Kind.replication_controller = refl
kind_at-place Kind.resource_quota = refl
kind_at-place Kind.secret = refl
kind_at-place Kind.service = refl

pub kind_cases : (k other : Kind) → (k ≡ other) ⊎ (k ≢ other)
kind_cases k other =
    elim (Bool-cases (ltb (place k) (place other) || ltb (place other) (place k))) [
      | inl apart ↦ inr (λ e. absurd (ground (arith, ap place e)))
      | inr level ↦
          let same : place k ≡ place other = ground arith in
          inl (sym (kind_at-place k) ∙ ap kind_at same ∙ kind_at-place other)
    ]

module _ {Q S : Type 0} where
  -- A chain that succeeds did so in each part.
  pub bind_ok :
      {A B : Type 0} (m : Action Q S A) (f : A → Action Q S B) (b : B) (s s' : S)
      → (m >>= f) s ≡ (ok b, s')
      → (a : A) × (s1 : S) × (m s ≡ (ok a, s1)) × (f a s1 ≡ (ok b, s'))
  bind_ok {A} {B} m f b s s' h = by_outcome (m s) refl h
    where
      by_outcome :
          (r : Result Q A × S)
          → m s ≡ r
          → continue r f ≡ (ok b, s')
          → (a : A) × (s1 : S) × (m s ≡ (ok a, s1)) × (f a s1 ≡ (ok b, s'))
      by_outcome (ok a, s1) e h' = (a, s1, e, h')
      by_outcome (err x, s1) e h' = absurd (cc)

  -- An action that, when it succeeds, keeps a property of the cluster, or makes sure of one.
  abbrev pub Preserves : (S → Type 0) → Action Q S (Unit {0}) → Type 0
  Preserves R m = (s s' : S) → m s ≡ (ok tt, s') → R s → R s'

  abbrev pub Ensures : (S → Type 0) → Action Q S (Unit {0}) → Type 0
  Ensures R m = (s s' : S) → m s ≡ (ok tt, s') → R s'

  module _ (R : S → Type 0) (m k : Action Q S (Unit {0})) where
    pub then-Preserves : Preserves R m → Preserves R k → Preserves R (m >> k)
    then-Preserves f g s s' h r =
        let (_, s1, first, later) = bind_ok m (λ _. k) tt s s' h in g s1 s' later (f s s1 first r)

    pub then-Ensures : Ensures R m → Preserves R k → Ensures R (m >> k)
    then-Ensures f g s s' h =
        let (_, s1, first, later) = bind_ok m (λ _. k) tt s s' h in g s1 s' later (f s s1 first)

    pub later-Ensures : Ensures R k → Ensures R (m >> k)
    later-Ensures g s s' h =
        let (_, s1, first, later) = bind_ok m (λ _. k) tt s s' h in g s1 s' later

  -- An action that succeeds from every state.
  abbrev pub Succeeds : Action Q S (Unit {0}) → Type 0
  Succeeds m = (s : S) → (s' : S) × (m s ≡ (ok tt, s'))

  pub then-Succeeds : (m k : Action Q S (Unit {0})) → Succeeds m → Succeeds k → Succeeds (m >> k)
  then-Succeeds m k f g s = let (s1, first) = f s in let (s', later) = g s1 in (s', rw first later)

  -- A chain that fails did so in one of its parts.
  pub bind_err :
      {A B : Type 0} (m : Action Q S A) (f : A → Action Q S B) (x : Error Q) (s s' : S)
      → (m >>= f) s ≡ (err x, s')
      → (m s ≡ (err x, s')) ⊎ ((a : A) × (s1 : S) × (m s ≡ (ok a, s1)) × (f a s1 ≡ (err x, s')))
  bind_err {A} {B} m f x s s' h = by_outcome (m s) refl h
    where
      by_outcome :
          (r : Result Q A × S)
          → m s ≡ r
          → continue r f ≡ (err x, s')
          → (m s ≡ (err x, s')) ⊎ ((a : A) × (s1 : S) × (m s ≡ (ok a, s1)) × (f a s1 ≡ (err x, s')))
      by_outcome (ok a, s1) e h' = inr (a, s1, e, h')
      by_outcome (err y, s1) e h' =
          let same : ◌≡◌ {A = Result Q A} (err y) (err x) = cc in
          inl (e ∙ ap (λ r. (r, s1)) same ∙ ap (λ z. (err x, z)) (ap (λ p. p.1) h'))
