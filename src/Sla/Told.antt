-- ===== src/Sla/Told.antt =====
-- Whom the sweep of backend/app/services/sla_service.py tells.
use registrator_ofid.Base.{
  ℕ, ◌≡◌, refl, sym, ap, ◌∙◌, subst, ◌⊎◌, inl, inr, ◌↔◌, Bool, true, false, List, [], ◌∷◌, Option,
  none, some, arith, Bool-cases, In, any, map,
}
use registrator_ofid.Models.User.{User, has_role}
use registrator_ofid.Models.User
use registrator_ofid.Models.Request.{Request}
use registrator_ofid.Models.Db.{Db}
use registrator_ofid.Routing.{is_bound}
use registrator_ofid.Sla.{
  Notice, is_breached, notify, sweep_one, recipients, set_of, ids_that, is_registrator,
  faculty_registrator_ids, department_head_id, add_optional,
}
use registrator_ofid.Sla.Sets.{Someone, In-add_optional, In-ids_that, or_all-In, In-set_of}

found_or_not :
    (p : User → Bool) (users : List User) → ((v : ℕ) × Someone p users v) ⊎ (any p users ≡ false)
found_or_not p [] = inr refl
found_or_not p (u ∷ users) = elim (Bool-cases (p u)) [
  | inl hit ↦ inl (u.id, (u, inl refl, hit, refl))
  | inr miss ↦ elim (found_or_not p users) [
    | inl (v, (w, i, t, e)) ↦ inl (v, (w, inr i, t, e))
    | inr e ↦ inr (ground arith)
  ]
]

ids_hit :
    (p : User → Bool) (u : User) (users : List User)
    → p u ≡ true
    → ids_that p (u ∷ users) ≡ u.id ∷ ids_that p users
unfolding ids_that
ids_hit p u users h = rw h refl

ids_miss :
    (p : User → Bool) (u : User) (users : List User)
    → p u ≡ false
    → ids_that p (u ∷ users) ≡ ids_that p users
unfolding ids_that
ids_miss p u users h = rw h refl

not_empty : {i : ℕ} {is : List ℕ} → i ∷ is ≡ [] → ⊥
not_empty e = cc

ids_none : (p : User → Bool) (users : List User) → (ids_that p users ≡ []) ↔ (any p users ≡ false)
unfolding ids_that
ids_none p [] = (λ h. refl, λ h. refl)
ids_none p (u ∷ users) =
    let (out, back) = ids_none p users in
    elim (Bool-cases (p u)) [
      | inl hit ↦
          (λ h. absurd (not_empty (sym (ids_hit p u users hit) ∙ h)), λ h. absurd (ground arith))
      | inr miss ↦ (
        λ h. let e = out (sym (ids_miss p u users miss) ∙ h) in ground arith,
        λ h. ids_miss p u users miss ∙ back (ground arith),
      )
    ]

-- The registrators of a faculty: the active ones bound to it, and every active one when none is
-- bound to it or there is no faculty.
abbrev pub Responsible : Db → Option ℕ → ℕ → Type 0
Responsible db none v = Someone is_registrator db.users v
Responsible db (some f) v =
    Someone (is_bound User.registrator f) db.users v
    ⊎ ((any (is_bound User.registrator f) db.users ≡ false) × Someone is_registrator db.users v)

every_registrator :
    (db : Db) (v : ℕ)
    → In v (set_of (ids_that is_registrator db.users)) ↔ Someone is_registrator db.users v
every_registrator db v =
    let (out, back) = In-set_of v (ids_that is_registrator db.users) in
    let (out', back') = In-ids_that is_registrator db.users v in
    (λ h. out' (out h), λ h. back (back' h))

faculty_registrators :
    (db : Db) (f : Option ℕ) (v : ℕ) → In v (faculty_registrator_ids db f) ↔ Responsible db f v
unfolding faculty_registrator_ids
faculty_registrators db none v = every_registrator db v
faculty_registrators db (some f) v =
    let bound = ids_that (is_bound User.registrator f) db.users in
    let (out, back) = or_all-In v bound (set_of (ids_that is_registrator db.users)) in
    let (none_out, none_back) = ids_none (is_bound User.registrator f) db.users in
    let (mine, mine') = In-ids_that (is_bound User.registrator f) db.users v in
    let (every, every') = every_registrator db v in
    (
      λ h. elim (out h) [ inl i ↦ inl (mine i) | inr (e, i) ↦ inr (none_out e, every i) ],
      λ h. back (elim h [ inl i ↦ inl (mine' i) | inr (e, i) ↦ inr (none_back e, every' i) ]),
    )

-- A warning goes to the assignee only. A breach goes to the assignee, to the head of the request's
-- department, and to the registrators of its faculty.
pub recipients_iff :
    (db : Db) (r : Request) (v : ℕ)
    → (In v (recipients db r false) ↔ (r.assigned_to ≡ some v))
      × (In v (recipients db r true) ↔ (
          (r.assigned_to ≡ some v)
          ⊎ ((department_head_id db r.department_id ≡ some v) ⊎ Responsible db r.faculty_id v)))
unfolding recipients
recipients_iff db r v =
    let (out, back) = In-add_optional v r.assigned_to [] in
    let everyone = faculty_registrator_ids db r.faculty_id in
    let head = department_head_id db r.department_id in
    let (out', back') = In-add_optional v r.assigned_to (add_optional head everyone) in
    let (out'', back'') = In-add_optional v head everyone in
    let (far, near) = faculty_registrators db r.faculty_id v in
    (
      (λ h. elim (out h) [ inl e ↦ e | inr i ↦ absurd i ], λ e. back (inl e)),
      (
        λ h. elim (out' h) [
          | inl e ↦ inl e
          | inr i ↦ inr (elim (out'' i) [ inl e ↦ inl e | inr j ↦ inr (far j) ])
        ],
        λ h. back' (elim h [
          | inl e ↦ inl e
          | inr i ↦ inr (back'' (elim i [ inl e ↦ inl e | inr j ↦ inr (near j) ]))
        ]),
      ),
    )

In-map : (f : ℕ → Notice) (v : ℕ) (ids : List ℕ) → In v ids → In (f v) (map f ids)
In-map f v [] i = absurd i
In-map f v (j ∷ ids) i = elim i [ inl e ↦ inl (ap f e) | inr later ↦ inr (In-map f v ids later) ]

somebody-Responsible :
    (db : Db) (f : Option ℕ) (u : User)
    → In u db.users
    → is_registrator u ≡ true
    → (v : ℕ) × Responsible db f v
somebody-Responsible db none u i active = (u.id, (u, i, active, refl))
somebody-Responsible db (some f) u i active =
    elim (found_or_not (is_bound User.registrator f) db.users) [
      | inl (v, found) ↦ (v, inl found)
      | inr nobody ↦ (u.id, inr (nobody, (u, i, active, refl)))
    ]

-- A breach is never reported to nobody: while some registrator is active, a request that is handled
-- past its deadline is reported to a user, as breached and under its own key.
pub breach_is_told :
    (db : Db) (now : ℕ) (r : Request) (u : User)
    → In u db.users
    → is_registrator u ≡ true
    → is_breached now r ≡ true
    → (n : Notice) × In n (sweep_one db now r).notices
      × (n.request_id ≡ r.id)
      × (n.sla_breached ≡ true)
unfolding sweep_one notify
breach_is_told db now r u i active late =
    let (v, responsible) = somebody-Responsible db r.faculty_id u i active in
    let told = (recipients_iff db r v).1.1 (inr (inr responsible)) in
    let told_now = subst (λ b. In v (recipients db r b)) (sym late) told in
    (_, In-map _ v _ told_now, refl, late)
