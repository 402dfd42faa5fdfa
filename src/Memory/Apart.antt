-- ===== src/Memory/Apart.antt =====
-- The generated deep copies: contents, and cells of their own.
use projectresourcequota.Prelude.{
  append-nil, ◌&&◌, ◌<◌, String, ◌≡◌, refl, sym, ap, ◌∙◌, true, false, ◌==◌, eq_iff, eq_refl,
  Bool-cases, inl, inr, Option, none, some, List, [], ◌∷◌, ◌++◌, leb, arith,
}
use projectresourcequota.Dict.{Dict, IsMap, insert, lookup, has}
use projectresourcequota.Quantity.{Quantity}
use projectresourcequota.Api.{ResourceList}
use projectresourcequota.Memory.{Address, SpecValue, StatusValue, Memory, put}
use projectresourcequota.Memory.DeepCopy.{
  copy_strings, copy_entries, copy_resources, spec_deep_copy_into, status_deep_copy_into,
}
use projectresourcequota.Memory.Copied.{IsMaps, IsStored, IsCopied, IsCopied-both}

pub put-at : {A : Type 0} (a : Address) (x : A) (cells : Address → A) → put a x cells a ≡ x
put-at a x cells = ground arith

pub put-below :
    {A : Type 0} (a b : Address) (x : A) (cells : Address → A) → b < a → put a x cells b ≡ cells b
put-below a b x cells below = ground arith

put-All :
    {A : Type 0} (P : A → Type 0) (a : Address) (x : A) (cells : Address → A)
    → P x
    → ((b : Address) → P (cells b))
    → (b : Address) → P (put a x cells b)
put-All P a x cells h k b = elim (Bool-cases (leb a b && leb b a)) [
  | inl here ↦ rw here h
  | inr there ↦ rw there (k b)
]

module _ {Q : Type 0} where
  abbrev pub strings_content : Option Address → Memory Q → Option (List String)
  strings_content none m = none
  strings_content (some a) m = some (m.strings a)

  abbrev pub resources_content : Option Address → Memory Q → Option (ResourceList Q)
  resources_content none m = none
  resources_content (some a) m = some (m.resources a)

  abbrev pub spec_content : SpecValue → Memory Q → Option (List String) × Option (ResourceList Q)
  spec_content v m = (strings_content v.namespaces m, resources_content v.hard m)

  abbrev pub status_content :
      StatusValue → Memory Q → Option (ResourceList Q) × Option (List String)
  status_content v m = (resources_content v.used m, strings_content v.namespaces m)

  copy_strings-IsCopied :
      (o : Option Address) (m : Memory Q)
      → IsMaps m
      → IsCopied strings_content o m (copy_strings o m)
  unfolding copy_strings
  copy_strings-IsCopied none m maps = record {
    grown = omega arith;
    kept = record {
      strings = λ a low below. refl;
      projects = λ a low below. refl;
      resources = λ a low below. refl;
    };
    maps = maps;
    same = refl;
    own = λ w agree. refl;
  }
  copy_strings-IsCopied (some a) m maps = record {
    grown = omega arith;
    kept = record {
      strings = λ b low below. put-below m.next b (m.strings a) m.strings below;
      projects = λ b low below. refl;
      resources = λ b low below. refl;
    };
    maps = maps;
    same = ap some (put-at m.next (m.strings a) m.strings);
    own = λ w agree. ap some (agree.strings m.next (omega arith) (omega arith));
  }

insert-new :
    {V : Type 0} (k : String) (v : V) (d : Dict V)
    → has k d ≡ false
    → insert k v d ≡ d ++ (k, v) ∷ []
unfolding insert lookup
insert-new k v [] h = refl
insert-new k v ((j, w) ∷ d) h = elim (Bool-cases (j == k)) [
  | inl here ↦ absurd (cc (rw here at h))
  | inr there ↦ rw there (ap (λ r. (j, w) ∷ r) (insert-new k v d (rw there at h)))
]

append-one : {A : Type 0} (xs : List A) (y : A) (ys : List A) → (xs ++ y ∷ []) ++ ys ≡ xs ++ y ∷ ys
append-one [] y ys = refl
append-one (x ∷ xs) y ys = ap (λ l. x ∷ l) (append-one xs y ys)

has-middle : {V : Type 0} (k : String) (v : V) (d e : Dict V) → has k (d ++ (k, v) ∷ e) ≡ true
unfolding lookup
has-middle k v [] e = rw (eq_refl k) refl
has-middle k v ((j, w) ∷ d) e = elim (Bool-cases (j == k)) [
  | inl here ↦ rw here refl
  | inr there ↦ rw there (has-middle k v d e)
]

new_key :
    {V : Type 0} (k : String) (v : V) (d e : Dict V) → IsMap (d ++ (k, v) ∷ e) → has k d ≡ false
unfolding lookup
new_key k v [] e h = refl
new_key k v ((j, w) ∷ d) e h = elim (Bool-cases (j == k)) [
  | inl here ↦ let same = (eq_iff j k).0 here in absurd (cc (rw same at h.0, has-middle k v d e))
  | inr there ↦ rw there (new_key k v d e h.1)
]

module _ {Q : Type 0} ⦃q : Quantity Q⦄ where
  copy_entries-append : (out d : ResourceList Q) → IsMap (out ++ d) → copy_entries out d ≡ out ++ d
  unfolding copy_entries
  copy_entries-append out [] h = sym (append-nil out)
  copy_entries-append out ((k, v) ∷ rest) h =
      ap (λ x. copy_entries (insert k x out) rest) (q.deep_copy_lem v)
      ∙ ap (λ o. copy_entries o rest) (insert-new k v out (new_key k v out rest h))
      ∙ copy_entries-append (out ++ (k, v) ∷ []) rest (rw (append-one out (k, v) rest) h)
      ∙ append-one out (k, v) rest

  copy_resources-IsCopied :
      (o : Option Address) (m : Memory Q)
      → IsMaps m
      → IsCopied resources_content o m (copy_resources o m)
  unfolding copy_resources
  copy_resources-IsCopied none m maps = record {
    grown = omega arith;
    kept = record {
      strings = λ a low below. refl;
      projects = λ a low below. refl;
      resources = λ a low below. refl;
    };
    maps = maps;
    same = refl;
    own = λ w agree. refl;
  }
  copy_resources-IsCopied (some a) m maps =
      let copied = copy_entries-append [] (m.resources a) (maps a) in
      record {
        grown = omega arith;
        kept = record {
          strings = λ b low below. refl;
          projects = λ b low below. refl;
          resources = λ b low below. put-below m.next b _ m.resources below;
        };
        maps = put-All IsMap m.next _ m.resources (rw copied (maps a)) maps;
        same = ap some (put-at m.next _ m.resources ∙ copied);
        own = λ w agree. ap some (agree.resources m.next (omega arith) (omega arith));
      }

  pub spec-IsCopied :
      (v : SpecValue) (m : Memory Q)
      → IsMaps m
      → IsStored resources_content v.hard m
      → IsCopied spec_content v m (spec_deep_copy_into v m)
  unfolding spec_deep_copy_into
  spec-IsCopied v m maps stored =
      let first = copy_strings-IsCopied v.namespaces m maps in
      IsCopied-both strings_content resources_content spec_content
        (λ a b. record { namespaces = a; hard = b }) (λ a b. (a, b)) (λ a b w. refl) m
        (copy_strings v.namespaces m) (copy_resources v.hard (copy_strings v.namespaces m).1) stored
        first (copy_resources-IsCopied v.hard (copy_strings v.namespaces m).1 first.maps)

  pub status-IsCopied :
      (v : StatusValue) (m : Memory Q)
      → IsMaps m
      → IsStored strings_content v.namespaces m
      → IsCopied status_content v m (status_deep_copy_into v m)
  unfolding status_deep_copy_into
  status-IsCopied v m maps stored =
      let first = copy_resources-IsCopied v.used m maps in
      IsCopied-both resources_content strings_content status_content
        (λ a b. record { used = a; namespaces = b }) (λ a b. (a, b)) (λ a b w. refl) m
        (copy_resources v.used m) (copy_strings v.namespaces (copy_resources v.used m).1) stored
        first (copy_strings-IsCopied v.namespaces (copy_resources v.used m).1 first.maps)
