-- ===== src/Sla/Sweep.antt =====
-- A whole sweep of backend/app/services/sla_service.py.
use registrator_ofid.Base.{
  ℕ, zero, suc, ◌≤◌, ◌≡◌, refl, sym, ap, ◌∙◌, subst, ◌⊎◌, inl, inr, ◌↔◌, true, false, List, [], ◌∷◌,
  arith, Bool-cases, if◌then◌else◌, ◌==◌, In, In-filter, filter-In, filter, take, length, leb,
}
use registrator_ofid.Models.Request.{Request}
use registrator_ofid.Models.Db.{Db}
use registrator_ofid.Sla.{
  Swept, is_due, sweep_one, batch, batch_size, sort_by_deadline, insert_request, replace,
  sweep_loop, sweep_sla_deadlines,
}
use registrator_ofid.Sla.Once.{sweep_one_settles, sweep_one_id}

insert_first :
    (r q : Request) (qs : List Request)
    → leb r.sla_deadline q.sla_deadline ≡ true
    → insert_request r (q ∷ qs) ≡ r ∷ q ∷ qs
unfolding insert_request
insert_first r q qs h = rw h refl

insert_later :
    (r q : Request) (qs : List Request)
    → leb r.sla_deadline q.sla_deadline ≡ false
    → insert_request r (q ∷ qs) ≡ q ∷ insert_request r qs
unfolding insert_request
insert_later r q qs h = rw h refl

In-insert_request :
    (v r : Request) (rs : List Request) → In v (insert_request r rs) ↔ ((v ≡ r) ⊎ In v rs)
unfolding insert_request
In-insert_request v r [] = (λ h. h, λ h. h)
In-insert_request v r (q ∷ qs) = elim (Bool-cases (leb r.sla_deadline q.sla_deadline)) [
  | inl first ↦
      let e = insert_first r q qs first in (λ h. subst (In v) e h, λ h. subst (In v) (sym e) h)
  | inr after ↦
      let e = insert_later r q qs after in
      let (out, back) = In-insert_request v r qs in
      (
        λ h. elim (subst (In v) e h) [
          | inl here ↦ inr (inl here)
          | inr later ↦ elim (out later) [ inl here ↦ inl here | inr found ↦ inr (inr found) ]
        ],
        λ h. subst (In v) (sym e) (elim h [
          | inl here ↦ inr (back (inl here))
          | inr later ↦ elim later [ inl here ↦ inl here | inr found ↦ inr (back (inr found)) ]
        ]),
      )
]

In-sort : (v : Request) (rs : List Request) → In v (sort_by_deadline rs) ↔ In v rs
unfolding sort_by_deadline
In-sort v [] = (λ h. h, λ h. h)
In-sort v (r ∷ rs) =
    let (out, back) = In-insert_request v r (sort_by_deadline rs) in
    let (out', back') = In-sort v rs in
    (
      λ h. elim (out h) [ inl e ↦ inl e | inr later ↦ inr (out' later) ],
      λ h. back (elim h [ inl e ↦ inl e | inr later ↦ inr (back' later) ]),
    )

length-insert_request :
    (r : Request) (rs : List Request) → length (insert_request r rs) ≡ suc (length rs)
unfolding insert_request
length-insert_request r [] = refl
length-insert_request r (q ∷ qs) = elim (Bool-cases (leb r.sla_deadline q.sla_deadline)) [
  | inl first ↦ ap length (insert_first r q qs first)
  | inr after ↦ ap length (insert_later r q qs after) ∙ ap suc (length-insert_request r qs)
]

length-sort : (rs : List Request) → length (sort_by_deadline rs) ≡ length rs
unfolding sort_by_deadline
length-sort [] = refl
length-sort (r ∷ rs) = length-insert_request r (sort_by_deadline rs) ∙ ap suc (length-sort rs)

take_all : (n : ℕ) (rs : List Request) → length rs ≤ n → take n rs ≡ rs
take_all zero [] h = refl
take_all (suc n) [] h = refl
take_all zero (r ∷ rs) h = absurd (omega arith)
take_all (suc n) (r ∷ rs) h = ap (λ o. r ∷ o) (take_all n rs (omega arith))

In-take : (n : ℕ) (v : Request) (rs : List Request) → In v (take n rs) → In v rs
In-take zero v rs i = absurd i
In-take (suc n) v [] i = i
In-take (suc n) v (r ∷ rs) i = elim i [ inl e ↦ inl e | inr later ↦ inr (In-take n v rs later) ]

-- Every row of the batch is due.
batch-due :
    (db : Db) (now warn : ℕ) (v : Request) → In v (batch db now warn) → is_due now warn v ≡ true
unfolding batch
batch-due db now warn v i =
    let due = filter (is_due now warn) db.requests in
    (In-filter (is_due now warn) v db.requests
      ((In-sort v due).0 (In-take batch_size v (sort_by_deadline due) i))).1

-- When the due rows fit in one batch, each of them is in it.
batch-all :
    (db : Db) (now warn : ℕ) (v : Request)
    → length (filter (is_due now warn) db.requests) ≤ batch_size
    → In v db.requests
    → is_due now warn v ≡ true
    → In v (batch db now warn)
unfolding batch
batch-all db now warn v fits i due =
    let rows = filter (is_due now warn) db.requests in
    let sorted = (In-sort v rows).1 (filter-In (is_due now warn) v db.requests i due) in
    subst (In v)
      (sym (take_all batch_size (sort_by_deadline rows) (omega (arith, length-sort rows, fits))))
      sorted

-- Each row is due no more, or has the key of a row that the loop still handles.
unfoldable Handled : ℕ → ℕ → List Request → List Request → Type 0
Handled now warn left rows =
    (q : Request)
    → In q rows
    → (is_due now warn q ≡ false) ⊎ ((r : Request) × In r left × (q.id ≡ r.id))

pick_hit : (q r : Request) → (q.id == r.id) ≡ true → (if q.id == r.id then r else q) ≡ r
pick_hit q r h = rw h refl

pick_miss : (q r : Request) → (q.id == r.id) ≡ false → (if q.id == r.id then r else q) ≡ q
pick_miss q r h = rw h refl

In-replace :
    (v r : Request) (rows : List Request)
    → In v (replace r rows)
    → (v ≡ r) ⊎ (In v rows × ((v.id == r.id) ≡ false))
unfolding replace
In-replace v r [] i = absurd i
In-replace v r (q ∷ qs) i = elim i [
  | inl e ↦ elim (Bool-cases (q.id == r.id)) [
    | inl hit ↦ inl (e ∙ pick_hit q r hit)
    | inr miss ↦
        let same_row = e ∙ pick_miss q r miss in
        inr (inl same_row, ap (λ o. o.id == r.id) same_row ∙ miss)
  ]
  | inr later ↦ elim (In-replace v r qs later) [ inl e ↦ inl e | inr (j, miss) ↦ inr (inr j, miss) ]
]

apart : (a b : ℕ) → a ≡ b → (a == b) ≡ false → ⊥
apart a b e h = ground arith

round-Handled :
    (db : Db) (now warn : ℕ) (r : Request) (rs rows : List Request)
    → is_due now warn r ≡ true
    → Handled now warn (r ∷ rs) rows
    → Handled now warn rs (replace (sweep_one db now r).request rows)
unfolding Handled
round-Handled db now warn r rs rows due h q i =
    let swept = (sweep_one db now r).request in
    elim (In-replace q swept rows i) [
      | inl e ↦ inl (ap (is_due now warn) e ∙ sweep_one_settles db now warn r due)
      | inr (j, miss) ↦ elim (h q j) [
        | inl quiet ↦ inl quiet
        | inr (w, k, e) ↦ elim k [
          | inl is ↦
              absurd
                (apart q.id swept.id (e ∙ ap (λ o. o.id) is ∙ sym (sweep_one_id db now r)) miss)
          | inr later ↦ inr (w, later, e)
        ]
      ]
    ]

sweep_loop-Handled :
    (db : Db) (now warn : ℕ) (rs : List Request) (s : Swept)
    → ((r : Request) → In r rs → is_due now warn r ≡ true)
    → Handled now warn rs s.requests
    → Handled now warn [] (sweep_loop db now rs s).requests
unfolding sweep_loop
sweep_loop-Handled db now warn [] s due h = h
sweep_loop-Handled db now warn (r ∷ rs) s due h =
    sweep_loop-Handled db now warn rs _ (λ q i. due q (inr i))
      (round-Handled db now warn r rs s.requests (due r (inl refl)) h)

-- A sweep that holds its lock leaves no row due at its moment, as long as the rows due before it fit
-- in one batch.
pub sweep_sla_deadlines_settles :
    (db : Db) (now warn : ℕ) (q : Request)
    → length (filter (is_due now warn) db.requests) ≤ batch_size
    → In q (sweep_sla_deadlines db true now warn).requests
    → is_due now warn q ≡ false
unfolding sweep_sla_deadlines Handled
sweep_sla_deadlines_settles db now warn q fits i =
    let start : Handled now warn (batch db now warn) db.requests = λ r j.
      elim (Bool-cases (is_due now warn r)) [
        | inl due ↦ inr (r, batch-all db now warn r fits j due, refl)
        | inr quiet ↦ inl quiet
      ] in
    elim (sweep_loop-Handled db now warn (batch db now warn) _ (batch-due db now warn) start q i) [
      | inl quiet ↦ quiet
      | inr (r, j, e) ↦ absurd j
    ]
