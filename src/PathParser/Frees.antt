-- ===== src/PathParser/Frees.antt =====
-- `pathparser_free` only gives memory back.
use mathlib.Core.Option
use mathlib.Core.Option.{some-injective}
use marrow_os.Allocator.{Allocator}
use marrow_os.Base.{
  ℕ, ◌≡◌, ap, sym, ◌∙◌, subst, List, [], ◌∷◌, Option, none, some, Option-cases, inl, inr,
}
use marrow_os.Base.Run.{Run, ◌>>◌, >>=-none, >>=-some}
use marrow_os.PathParser.{PathPart, PathRoot, kfree, free_parts, pathparser_free}

-- What a run that ends leaves in the state.
abbrev pub Keeps : {S A : Type 0} → (S → Type 0) → Run S A → Type 0
Keeps {S} {A} P m = (s s' : S) (x : A) → P s → m s ≡ some (x, s') → P s'

impossible : {C : Type 0} {c : C} → ◌≡◌ {A = Option C} none (some c) → ⊥
impossible h = cc

pub >>-Keeps :
    {S A B : Type 0} (P : S → Type 0) (m : Run S A) (k : Run S B)
    → Keeps P m
    → Keeps P k
    → Keeps P (m >> k)
>>-Keeps P m k hm hk s s' x p e = elim (Option-cases (m s)) [
  | inl stuck ↦ absurd (impossible (sym (>>=-none m (λ _. k) s stuck) ∙ e))
  | inr (r, ends) ↦ hk r.1 s' x (hm s r.1 r.0 p ends) (sym (>>=-some m (λ _. k) s r.1 r.0 ends) ∙ e)
]

module _ (a : Allocator) (P : a.State → Type 0)
    (keeps : (ptr : ℕ) (s s' : a.State) → P s → a.kfree ptr s ≡ some s' → P s') where
  kfree-Keeps : (ptr : ℕ) → Keeps P (kfree a ptr)
  unfolding kfree
  kfree-Keeps ptr s s' x p e = elim (Option-cases (a.kfree ptr s)) [
    | inl stuck ↦ absurd (impossible (sym (ap (Option.map (λ t. (tt, t))) stuck) ∙ e))
    | inr (t, ends) ↦
        let same : ◌≡◌ {A = Unit {0} × a.State} (tt, t) (x, s') =
          some-injective _ _ (sym (ap (Option.map (λ t. (tt, t))) ends) ∙ e) in
        subst P (ap (λ r. r.1) same) (keeps ptr s t p ends)
  ]

  free_parts-Keeps : (parts : List PathPart) → Keeps P (free_parts a parts)
  unfolding free_parts
  free_parts-Keeps [] = λ s s' x p e.
      subst P (ap (λ r. r.1) (some-injective {A = Unit {0} × a.State} (tt, s) (x, s') e)) p
  free_parts-Keeps (part ∷ parts) =
      >>-Keeps P (kfree a part.part_ptr) _ (kfree-Keeps part.part_ptr) (
        >>-Keeps P (kfree a part.node) (free_parts a parts) (kfree-Keeps part.node)
          (free_parts-Keeps parts))

  pub pathparser_free-Keeps : (root : PathRoot) → Keeps P (pathparser_free a root)
  unfolding pathparser_free
  pathparser_free-Keeps root =
      >>-Keeps P (free_parts a root.parts) (kfree a root.root) (free_parts-Keeps root.parts)
        (kfree-Keeps root.root)
