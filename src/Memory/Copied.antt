-- ===== src/Memory/Copied.antt =====
-- When the result of a copy has the contents of the source and cells of its own.
use projectresourcequota.Prelude.{◌≤◌, ◌≡◌, sym, ap, ◌∙◌, arith}
use projectresourcequota.Dict.{IsMap}
use projectresourcequota.Memory.{Address, Memory, Agree}

module _ {Q : Type 0} where
  pub Agree-chain :
      {from mid to : Address} {m w v : Memory Q}
      → mid ≤ to
      → Agree 0 mid m w
      → Agree from to w v
      → Agree from mid m v
  Agree-chain high f g = record {
    strings = λ a low above.
        g.strings a low (omega (arith, above, high)) ∙ f.strings a (omega arith) above;
    projects = λ a low above.
        g.projects a low (omega (arith, above, high)) ∙ f.projects a (omega arith) above;
    resources = λ a low above.
        g.resources a low (omega (arith, above, high)) ∙ f.resources a (omega arith) above;
  }

  pub Agree-narrow :
      {from to from' to' : Address} {m w : Memory Q}
      → from ≤ from'
      → to' ≤ to
      → Agree from to m w
      → Agree from' to' m w
  Agree-narrow low high f = record {
    strings = λ a above below. f.strings a (omega arith) (omega arith);
    projects = λ a above below. f.projects a (omega arith) (omega arith);
    resources = λ a above below. f.resources a (omega arith) (omega arith);
  }

-- Every map in the memory is one.
abbrev pub IsMaps : {Q : Type 0} → Memory Q → Type 0
IsMaps m = (a : Address) → IsMap (m.resources a)

-- What a value stands for in a memory is `content`.
module _ {Q V C : Type 0} (content : V → Memory Q → C) where
  -- What a value stands for depends on cells in use only.
  abbrev pub IsStored : V → Memory Q → Type 0
  IsStored v m = (w : Memory Q) → Agree 0 m.next m w → content v w ≡ content v m

  -- A copy has new cells, and leaves all others; it stands for what the source stands for, and
  -- depends on its new cells only.
  pub record IsCopied (v : V) (m : Memory Q) (copy : V × Memory Q) : Type 0 where
    pub grown : m.next ≤ copy.1.next
    pub kept : Agree 0 m.next m copy.1
    pub maps : IsMaps copy.1
    pub same : content copy.0 copy.1 ≡ content v m
    pub own :
        (w : Memory Q)
        → Agree m.next copy.1.next copy.1 w
        → content copy.0 w ≡ content copy.0 copy.1

  -- What is stored stays so when memory grows.
  pub IsStored-later :
      (v : V) (m m' : Memory Q)
      → m.next ≤ m'.next
      → Agree 0 m.next m m'
      → IsStored v m
      → (content v m' ≡ content v m) × IsStored v m'
  IsStored-later v m m' grown kept stored =
      (stored m' kept, λ w agree. stored w (Agree-chain grown kept agree) ∙ sym (stored m' kept))

-- Two copies in a row are a copy of both.
pub IsCopied-both :
    {Q V W C D E : Type 0} (first : V → Memory Q → C) (second : W → Memory Q → D) {T : Type 0}
    (content : T → Memory Q → E) (make : V → W → T) (join : C → D → E)
    (make_lem : (v : V) (w : W) (m : Memory Q)
      → content (make v w) m ≡ join (first v m) (second w m))
    {v : V} {w : W} (m : Memory Q) (copy : V × Memory Q) (copy' : W × Memory Q)
    → IsStored second w m
    → IsCopied first v m copy
    → IsCopied second w copy.1 copy'
    → IsCopied content (make v w) m (make copy.0 copy'.0, copy'.1)
IsCopied-both first second content make join make_lem {v} {w} m copy copy' stored f g = record {
  grown = omega (arith, f.grown, g.grown);
  kept = Agree-chain f.grown f.kept g.kept;
  maps = g.maps;
  same =
      make_lem copy.0 copy'.0 copy'.1
      ∙ ap (λ c. join c (second copy'.0 copy'.1))
          (f.own copy'.1 (Agree-narrow (omega arith) (omega arith) g.kept) ∙ f.same)
      ∙ ap (join (first v m)) (g.same ∙ (IsStored-later second w m copy.1 f.grown f.kept stored).0)
      ∙ sym (make_lem v w m);
  own = λ x agree.
      make_lem copy.0 copy'.0 x
      ∙ ap (λ c. join c (second copy'.0 x))
          (f.own x (Agree-chain g.grown g.kept agree)
            ∙ sym (f.own copy'.1 (Agree-narrow (omega arith) (omega arith) g.kept)))
      ∙ ap (join (first copy.0 copy'.1)) (g.own x (Agree-narrow f.grown (omega arith) agree))
      ∙ sym (make_lem copy.0 copy'.0 copy'.1);
}
