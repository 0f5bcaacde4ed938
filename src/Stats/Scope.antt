-- ===== src/Stats/Scope.antt =====
-- Which requests a role answers for: `_visible_requests` of backend/app/services/stats_service.py.
use registrator_ofid.Base.{
  ◌≡◌, sym, ◌∙◌, ◌↔◌, ◌⊎◌, inl, inr, true, false, [], ◌∷◌, none, some, arith, Bool-cases,
  Option-cases,
}
use registrator_ofid.Models.User.{User, has_role}
use registrator_ofid.Models.User
use registrator_ofid.Models.Request.{Request}
use registrator_ofid.Workflow.{is_id}
use registrator_ofid.Workflow.Access.{is_id-some}
use registrator_ofid.Stats.{is_visible}

-- A student answers for what they wrote, a staff member for what is assigned to them, and a registrator
-- of a faculty for the requests of the faculty and those assigned to them; every other user for all.
abbrev pub AnswersFor : User → Request → Type 0
AnswersFor user r =
    ((has_role user (User.student ∷ []) ≡ false) ⊎ (r.student_id ≡ user.id))
    × ((has_role user (User.staff ∷ []) ≡ false) ⊎ (r.assigned_to ≡ some user.id))
    × ((has_role user (User.registrator ∷ []) ≡ false)
        ⊎ ((User.faculty_id user ≡ none)
            ⊎ ((r.faculty_id ≡ User.faculty_id user) ⊎ (r.assigned_to ≡ some user.id))))

visible_answers : (user : User) (r : Request) → is_visible user r ≡ true → AnswersFor user r
unfolding is_visible
visible_answers user r h = (
  elim (Bool-cases (has_role user (User.student ∷ []))) [
    | inl is ↦ inr (ground arith)
    | inr other ↦ inl other
  ],
  elim (Bool-cases (has_role user (User.staff ∷ []))) [
    | inr other ↦ inl other
    | inl is ↦ elim (Bool-cases (has_role user (User.student ∷ []))) [
      | inl both ↦ inl (User.one_role user both)
      | inr only ↦ inr ((is_id-some r.assigned_to user.id).0 (ground arith))
    ]
  ],
  elim (Bool-cases (has_role user (User.registrator ∷ []))) [
    | inr other ↦ inl other
    | inl is ↦
        let (no_student, no_staff) = User.registrator_alone user is in
        elim (Option-cases (User.faculty_id user)) [
          | inl nowhere ↦ inr (inl nowhere)
          | inr (f, there) ↦ elim (Bool-cases (is_id r.faculty_id f)) [
            | inl theirs ↦ inr (inr (inl ((is_id-some r.faculty_id f).0 theirs ∙ sym there)))
            | inr elsewhere ↦ inr (inr (inr ((is_id-some r.assigned_to user.id).0 (ground arith))))
          ]
        ]
  ],
)

answers_visible : (user : User) (r : Request) → AnswersFor user r → is_visible user r ≡ true
unfolding is_visible
answers_visible user r (wrote, handles, oversees) =
    elim (Bool-cases (has_role user (User.student ∷ []))) [
      | inl is ↦ elim wrote [ inl other ↦ absurd (ground arith) | inr e ↦ ground arith ]
      | inr no_student ↦ elim (Bool-cases (has_role user (User.staff ∷ []))) [
        | inl is ↦ elim handles [
          | inl other ↦ absurd (ground arith)
          | inr e ↦ ground (arith, (is_id-some r.assigned_to user.id).1 e)
        ]
        | inr no_staff ↦ elim oversees [
          | inl other ↦ ground arith
          | inr (inl nowhere) ↦ ground arith
          | inr (inr (inr e)) ↦ elim (Option-cases (User.faculty_id user)) [
            | inl nowhere ↦ ground arith
            | inr (f, there) ↦ ground (arith, (is_id-some r.assigned_to user.id).1 e)
          ]
          | inr (inr (inl e)) ↦ elim (Option-cases (User.faculty_id user)) [
            | inl nowhere ↦ ground arith
            | inr (f, there) ↦ ground (arith, (is_id-some r.faculty_id f).1 (e ∙ there))
          ]
        ]
      ]
    ]

pub is_visible_iff : (user : User) (r : Request) → (is_visible user r ≡ true) ↔ AnswersFor user r
is_visible_iff user r = (visible_answers user r, answers_visible user r)
