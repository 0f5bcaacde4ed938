-- ===== src/Base/Lists.antt =====
-- Lists over the native numbers: length, membership tests, filtering and predicates by recursion.
use Prim.Native.Nat.{ℕ, zero, suc, ◌+◌, ◌≤◌}
use mathlib.Core.Path.{◌≡◌, sym, ap, subst, ◌∙◌}
use mathlib.Core.Logic.{◌⊎◌, inl, inr}
use mathlib.Core.Bool.{Bool, true, false, ◌||◌}
use mathlib.Core.List.{List, [], ◌∷◌, ◌++◌}
use native.Mathlib.Omega.{arith}
use registrator_ofid.Base.Tests.{if◌then◌else◌, Bool-cases}

module _ {ℓ} {A : Type ℓ} where
  abbrev pub length : List A → ℕ
  length [] = 0
  length (x ∷ xs) = suc (length xs)

  pub length-append : (xs ys : List A) → length (xs ++ ys) ≡ length xs + length ys
  length-append [] ys = omega arith
  length-append (x ∷ xs) ys = omega (arith, length-append xs ys)

  -- `xs[:n]`
  abbrev pub take : ℕ → List A → List A
  take zero xs = []
  take (suc n) [] = []
  take (suc n) (x ∷ xs) = x ∷ take n xs

  -- `xs[n:]`
  abbrev pub drop : ℕ → List A → List A
  drop zero xs = xs
  drop (suc n) [] = []
  drop (suc n) (x ∷ xs) = drop n xs

  -- `any(p(x) for x in xs)`
  abbrev pub any : (A → Bool) → List A → Bool
  any p [] = false
  any p (x ∷ xs) = p x || any p xs

  -- `[x for x in xs if p(x)]`
  abbrev pub filter : (A → Bool) → List A → List A
  filter p [] = []
  filter p (x ∷ xs) = let rest = filter p xs in if p x then x ∷ rest else rest

  abbrev pub All {κ} : (A → Type κ) → List A → Type κ
  All P [] = Unit
  All P (x ∷ xs) = P x × All P xs

  pub length-filter-le : (p : A → Bool) (xs : List A) → length (filter p xs) ≤ length xs
  length-filter-le p [] = omega arith
  length-filter-le p (x ∷ xs) = ground (arith, length-filter-le p xs)

-- `x` is an element of the list, with its place kept.
abbrev pub In : {A : Type 0} → A → List A → Type 0
In a [] = ⊥
In a (x ∷ xs) = (a ≡ x) ⊎ In a xs

module _ {A : Type 0} (p : A → Bool) where
  filter_hit : (x : A) (xs : List A) → p x ≡ true → filter p (x ∷ xs) ≡ x ∷ filter p xs
  filter_hit x xs h = rw h

  filter_miss : (x : A) (xs : List A) → p x ≡ false → filter p (x ∷ xs) ≡ filter p xs
  filter_miss x xs h = rw h

  pub In-filter : (v : A) (xs : List A) → In v (filter p xs) → In v xs × (p v ≡ true)
  In-filter v [] i = absurd i
  In-filter v (x ∷ xs) i = elim (Bool-cases (p x)) [
    | inl hit ↦ elim (subst (In v) (filter_hit x xs hit) i) [
      | inl e ↦ (inl e, ap p e ∙ hit)
      | inr later ↦ let (j, h) = In-filter v xs later in (inr j, h)
    ]
    | inr miss ↦ let (j, h) = In-filter v xs (subst (In v) (filter_miss x xs miss) i) in (inr j, h)
  ]

  pub filter-In : (v : A) (xs : List A) → In v xs → p v ≡ true → In v (filter p xs)
  filter-In v [] i h = absurd i
  filter-In v (x ∷ xs) i h = elim (Bool-cases (p x)) [
    | inl hit ↦
        subst (In v) (sym (filter_hit x xs hit))
          (elim i [ inl e ↦ inl e | inr later ↦ inr (filter-In v xs later h) ])
    | inr miss ↦ subst (In v) (sym (filter_miss x xs miss)) (elim i [
      | inl e ↦ absurd (cc (sym miss ∙ sym (ap p e) ∙ h))
      | inr later ↦ filter-In v xs later h
    ])
  ]
