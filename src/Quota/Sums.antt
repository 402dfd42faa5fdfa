-- ===== src/Quota/Sums.antt =====
-- How a row of the usage changes when one object of its kind comes into a namespace.
use projectresourcequota.Prelude.{
  String, ◌≡◌, ◌≢◌, refl, sym, subst, inl, inr, Bool, true, false, ◌==◌, eq_iff, eq_refl, ◌||◌,
  List, [], ◌∷◌, ◌++◌, contains, Bool-cases, if◌then◌else◌, arith,
}
use projectresourcequota.Prelude.Int.{ℤ, pos, ◌+ℤ◌, ◌≤ℤ◌, int_laws}
use projectresourcequota.Dict.{has}
use projectresourcequota.Quantity.{Quantity}
use projectresourcequota.Api.{Object, Body, ResourceList}
use projectresourcequota.Api.Result.{ok}
use projectresourcequota.Webhook.Pod.{PodResources}
use projectresourcequota.Controller.Cluster.{Client}
use projectresourcequota.Controller.Usage.Sums.{sum_where, total_over}
use projectresourcequota.Controller.Usage.Counts.{gate, Row, row_charge, row_total}

-- No name stands in the list twice.
abbrev pub AllDistinct : List String → Type 0
AllDistinct [] = Unit
AllDistinct (x ∷ xs) = (contains x xs ≡ false) × AllDistinct xs

-- A sum rises by at most `d`.
abbrev pub Rises : ℤ → ℤ → ℤ → Type 0
Rises x y d = (x ≤ℤ y) × (y ≤ℤ x +ℤ d)

pub Rises-none : (x d : ℤ) → pos 0 ≤ℤ d → Rises x x d
Rises-none x d h = (omega (int_laws, h), omega (int_laws, h))

pub sum_where-middle :
    {A : Type 0} (counts : A → Bool) (f : A → ℤ) (pre : List A) (x : A) (post : List A)
    → pos 0 ≤ℤ f x
    → Rises (sum_where counts f (pre ++ post)) (sum_where counts f (pre ++ x ∷ post)) (f x)
sum_where-middle counts f [] x post h = elim (Bool-cases (counts x)) [
  | inl counted ↦ rw counted (omega (int_laws, h), omega (int_laws, h))
  | inr skipped ↦ rw skipped (omega (int_laws, h), omega (int_laws, h))
]
sum_where-middle counts f (y ∷ pre) x post h =
    let (up, bounded) = sum_where-middle counts f pre x post h in
    (omega (int_laws, up), omega (int_laws, bounded))

Rises-add :
    (x y x' y' d : ℤ) (a b : Bool)
    → Rises x y (if a then d else pos 0)
    → Rises x' y' (if b then d else pos 0)
    → (a ≡ true → b ≡ false)
    → Rises (x +ℤ x') (y +ℤ y') (if a || b then d else pos 0)
Rises-add x y x' y' d true true f g apart = absurd (cc (apart refl))
Rises-add x y x' y' d true false f g apart =
    (omega (int_laws, f.0, g.0), omega (int_laws, f.1, g.1))
Rises-add x y x' y' d false b f g apart = (omega (int_laws, f.0, g.0), omega (int_laws, f.1, g.1))

-- In namespaces none of which is listed twice, where the charges of all but one are as before.
pub total_over-Rises :
    (f g : String → ℤ) (changed : String) (d : ℤ)
    → Rises (f changed) (g changed) d
    → ((ns : String) → changed ≢ ns → g ns ≡ f ns)
    → (nss : List String) → AllDistinct nss
    → Rises (total_over f nss) (total_over g nss) (if contains changed nss then d else pos 0)
total_over-Rises f g changed d rise same [] distinct = (omega int_laws, omega int_laws)
total_over-Rises f g changed d rise same (ns ∷ rest) distinct =
    Rises-add _ _ _ _ d (ns == changed) (contains changed rest)
      (elim (Bool-cases (ns == changed)) [
        | inl here ↦
            rw here (subst (λ x. Rises (f x) (g x) d) (sym ((eq_iff ns changed).0 here)) rise)
        | inr away ↦
            rw (away, same ns (λ e. cc (away, (eq_iff ns changed).1 (sym e))))
              (Rises-none _ (pos 0) (omega arith))
      ])
      (total_over-Rises f g changed d rise same rest distinct.1)
      (λ here. subst (λ x. contains x rest ≡ false) ((eq_iff ns changed).0 here) distinct.0)

pub total_over-same :
    (f g : String → ℤ) (nss : List String)
    → ((ns : String) → contains ns nss ≡ true → g ns ≡ f ns)
    → total_over g nss ≡ total_over f nss
total_over-same f g [] same = refl
total_over-same f g (ns ∷ rest) same =
    rw
      (
        same ns (ground (arith, eq_refl ns)),
        total_over-same f g rest (λ n inside. same n (ground arith)),
      )
      refl

module _ {Q B S : Type 0} ⦃q : Quantity Q⦄ (helper : PodResources Q B) (client : Client Q B S)
    (hard : ResourceList Q) (row : Row B) where
  abbrev charge : S → String → ℤ
  charge s ns = row_charge helper client hard s row ns

  pub row_charge-one_more :
      (s s' : S) (ns : String) (pre : List (Object (Body B row.kind)))
      (x : Object (Body B row.kind)) (post : List (Object (Body B row.kind)))
      → client.list row.kind ns s ≡ ok (pre ++ post)
      → client.list row.kind ns s' ≡ ok (pre ++ x ∷ post)
      → pos 0 ≤ℤ row.measure x
      → Rises (charge s ns) (charge s' ns) (row.measure x)
  row_charge-one_more s s' ns pre x post without_it with_it positive =
      rw (without_it, with_it) (by_limits (has (gate row.kind) hard) (has row.name hard))
    where
      by_limits :
          (gated limited : Bool)
          → Rises
              (if gated
                then (if limited then sum_where row.counts row.measure (pre ++ post) else pos 0)
                else pos 0)
              (if gated
                then (if limited then sum_where row.counts row.measure (pre ++ x ∷ post) else pos 0)
                else pos 0)
              (row.measure x)
      by_limits true true = sum_where-middle row.counts row.measure pre x post positive
      by_limits true false = Rises-none (pos 0) (row.measure x) positive
      by_limits false limited = Rises-none (pos 0) (row.measure x) positive

  pub row_total-Rises :
      (s s' : S) (changed : String) (d : ℤ)
      → Rises (charge s changed) (charge s' changed) d
      → ((ns : String) → changed ≢ ns → client.list row.kind ns s' ≡ client.list row.kind ns s)
      → (nss : List String) → AllDistinct nss
      → Rises
          (row_total helper client hard s row nss)
          (row_total helper client hard s' row nss)
          (if contains changed nss then d else pos 0)
  row_total-Rises s s' changed d rise same =
      total_over-Rises (charge s) (charge s') changed d rise (λ ns away. rw (same ns away) refl)

  pub row_total-same :
      (s s' : S) (nss : List String)
      → ((ns : String)
          → contains ns nss ≡ true
          → client.list row.kind ns s' ≡ client.list row.kind ns s)
      → row_total helper client hard s' row nss ≡ row_total helper client hard s row nss
  row_total-same s s' nss same =
      total_over-same (charge s) (charge s') nss (λ ns inside. rw (same ns inside) refl)
