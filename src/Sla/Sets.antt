-- ===== src/Sla/Sets.antt =====
-- The sets of ids of backend/app/services/sla_service.py, by their members.
use registrator_ofid.Base.{
  ℕ, ◌≡◌, refl, sym, ap, ◌∙◌, subst, ◌⊎◌, inl, inr, ◌↔◌, Bool, true, false, List, [], ◌∷◌, Option,
  none, some, arith, Bool-cases, ◌==◌, ==_iff, In, In-filter, filter-In, filter, any, map,
}
use registrator_ofid.Models.User.{User}
use registrator_ofid.Sla.{add_id, set_of, ids_that, or_all, add_optional}

any-In : (i : ℕ) (ids : List ℕ) → any (λ j. j == i) ids ≡ true → In i ids
any-In i [] h = absurd (ground arith)
any-In i (j ∷ ids) h = elim (Bool-cases (j == i)) [
  | inl e ↦ inl (sym ((==_iff j i).0 e))
  | inr e ↦ inr (any-In i ids (ground arith))
]

In-any : (i : ℕ) (ids : List ℕ) → In i ids → any (λ j. j == i) ids ≡ true
In-any i [] h = absurd h
In-any i (j ∷ ids) h = elim h [
  | inl e ↦ ground arith
  | inr later ↦ ground (arith, In-any i ids later)
]

add_known : (i : ℕ) (ids : List ℕ) → any (λ j. j == i) ids ≡ true → add_id i ids ≡ ids
unfolding add_id
add_known i ids h = rw h refl

add_fresh : (i : ℕ) (ids : List ℕ) → any (λ j. j == i) ids ≡ false → add_id i ids ≡ i ∷ ids
unfolding add_id
add_fresh i ids h = rw h refl

In-add_id : (v i : ℕ) (ids : List ℕ) → In v (add_id i ids) ↔ ((v ≡ i) ⊎ In v ids)
In-add_id v i ids = elim (Bool-cases (any (λ j. j == i) ids)) [
  | inl known ↦
      let e = add_known i ids known in
      (
        λ h. inr (subst (In v) e h),
        λ h. subst (In v) (sym e) (elim h [
          | inl same ↦ subst (λ o. In o ids) (sym same) (any-In i ids known)
          | inr later ↦ later
        ]),
      )
  | inr fresh ↦
      let e = add_fresh i ids fresh in (λ h. subst (In v) e h, λ h. subst (In v) (sym e) h)
]

pub In-set_of : (v : ℕ) (ids : List ℕ) → In v (set_of ids) ↔ In v ids
unfolding set_of
In-set_of v [] = (λ h. h, λ h. h)
In-set_of v (i ∷ ids) =
    let (out, back) = In-add_id v i (set_of ids) in
    let (out', back') = In-set_of v ids in
    (
      λ h. elim (out h) [ inl e ↦ inl e | inr later ↦ inr (out' later) ],
      λ h. back (elim h [ inl e ↦ inl e | inr later ↦ inr (back' later) ]),
    )

pub In-add_optional :
    (v : ℕ) (o : Option ℕ) (ids : List ℕ) → In v (add_optional o ids) ↔ ((o ≡ some v) ⊎ In v ids)
unfolding add_optional
In-add_optional v none ids =
    (λ h. inr h, λ h. elim h [ inl e ↦ absurd (ground arith) | inr later ↦ later ])
In-add_optional v (some i) ids =
    let (out, back) = In-add_id v i ids in
    (
      λ h. elim (out h) [ inl e ↦ inl (ap some (sym e)) | inr later ↦ inr later ],
      λ h. back (elim h [ inl e ↦ inl (ground arith) | inr later ↦ inr later ]),
    )

-- Some user of the list with that key passes the test.
abbrev pub Someone : (User → Bool) → List User → ℕ → Type 0
Someone p users v = (u : User) × In u users × (p u ≡ true) × (u.id ≡ v)

pub In-map_id :
    (v : ℕ) (us : List User) → In v (map (λ u. u.id) us) ↔ ((u : User) × In u us × (u.id ≡ v))
In-map_id v [] = (λ h. absurd h, λ (u, i, e). absurd i)
In-map_id v (w ∷ us) =
    let (out, back) = In-map_id v us in
    (
      λ h. elim h [
        | inl e ↦ (w, inl refl, sym e)
        | inr later ↦ let (u, i, e) = out later in (u, inr i, e)
      ],
      λ (u, i, e). elim i [
        | inl is ↦ inl (sym e ∙ ap (λ o. o.id) is)
        | inr later ↦ inr (back (u, later, e))
      ],
    )

pub In-ids_that :
    (p : User → Bool) (users : List User) (v : ℕ) → In v (ids_that p users) ↔ Someone p users v
unfolding ids_that
In-ids_that p users v =
    let (out, back) = In-map_id v (filter p users) in
    (
      λ h. let (u, i, e) = out h in let (j, t) = In-filter p u users i in (u, j, t, e),
      λ (u, j, t, e). back (u, filter-In p u users j t, e),
    )

pub or_all-In :
    (v : ℕ) (ids everybody : List ℕ)
    → In v (or_all ids everybody) ↔ (In v ids ⊎ ((ids ≡ []) × In v everybody))
unfolding or_all
or_all-In v [] everybody = (λ h. inr (refl, h), λ h. elim h [ inl i ↦ absurd i | inr (e, i) ↦ i ])
or_all-In v (i ∷ ids) everybody = (
  λ h. inl ((In-set_of v (i ∷ ids)).0 h),
  λ h. elim h [ inl found ↦ (In-set_of v (i ∷ ids)).1 found | inr (e, j) ↦ absurd (ground arith) ],
)
