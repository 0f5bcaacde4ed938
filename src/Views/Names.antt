-- ===== src/Views/Names.antt =====
-- The dictionary of people in backend/app/schemas/request.py gives each author the name in the table.
use registrator_ofid.Base.{
  ℕ, ◌≡◌, refl, sym, ap, ◌∙◌, ◌⊎◌, inl, inr, Bool, true, false, ◌==◌, ==_iff, List, [], ◌∷◌, ◌++◌,
  Option, none, some, arith, map, not, In, In-filter, Bool-cases, Option-cases, subst,
}
use registrator_ofid.Models.User.{User}
use registrator_ofid.Models.Request.{Request, RequestHistory, Message}
use registrator_ofid.Workflow.{find_user}
use registrator_ofid.Views.{
  author_keys, signed_message, signed_entry, load_user, add_person, add_people, people_of,
  message_out, history_out, visible_messages,
}

user_here : (u : User) (us : List User) (i : ℕ) → (u.id == i) ≡ true → find_user (u ∷ us) i ≡ some u
unfolding find_user
user_here u us i h = rw h refl

user_later :
    (u : User) (us : List User) (i : ℕ)
    → (u.id == i) ≡ false
    → find_user (u ∷ us) i ≡ find_user us i
unfolding find_user
user_later u us i h = rw h refl

some_inj : {A : Type 0} {a b : A} → some a ≡ some b → a ≡ b
some_inj e = cc

found_key : (us : List User) (i : ℕ) (u : User) → find_user us i ≡ some u → u.id ≡ i
unfolding find_user
found_key [] i u h = absurd (ground arith)
found_key (v ∷ us) i u h = elim (Bool-cases (v.id == i)) [
  | inl hit ↦ ap (λ o. o.id) (some_inj (sym h ∙ user_here v us i hit)) ∙ (==_iff v.id i).0 hit
  | inr miss ↦ found_key us i u (sym (user_later v us i miss) ∙ h)
]

module _ (users : List User) where
  -- A key is known: the dictionary has for it what the table has.
  abbrev Known : List User → ℕ → Type 0
  Known people i = find_user people i ≡ find_user users i

  -- Whatever the dictionary has is what the table has.
  abbrev IsFaithful : List User → Type 0
  IsFaithful people = (i : ℕ) → (find_user people i ≡ none) ⊎ Known people i

  unknown_user :
      (people : List User) (k : ℕ)
      → find_user users k ≡ none
      → add_person (load_user users (some k)) people ≡ people
  unfolding add_person load_user
  unknown_user people k h = rw h refl

  known_user :
      (people : List User) (k : ℕ) (u : User)
      → find_user users k ≡ some u
      → add_person (load_user users (some k)) people ≡ u ∷ people
  unfolding add_person load_user
  known_user people k u h = rw h refl

  -- Adding a user who was found keeps what is known, and makes the key known.
  added_keeps :
      (people : List User) (k : ℕ) (u : User) (i : ℕ)
      → find_user users k ≡ some u
      → Known people i ⊎ (k ≡ i)
      → Known (u ∷ people) i
  added_keeps people k u i found known = elim (Bool-cases (u.id == i)) [
    | inl hit ↦
        user_here u people i hit
        ∙ sym found
        ∙ ap (find_user users) (sym (found_key users k u found) ∙ (==_iff u.id i).0 hit)
    | inr miss ↦ elim known [
      | inl before ↦ user_later u people i miss ∙ before
      | inr same ↦ absurd (clash miss ((==_iff u.id i).1 (found_key users k u found ∙ same)))
    ]
  ]
    where
      clash : {b : Bool} → b ≡ false → b ≡ true → ⊥
      clash e f = cc

  added-IsFaithful :
      (people : List User) (k : ℕ) (u : User)
      → find_user users k ≡ some u
      → IsFaithful people
      → IsFaithful (u ∷ people)
  added-IsFaithful people k u found faithful i = elim (faithful i) [
    | inr known ↦ inr (added_keeps people k u i found (inl known))
    | inl nothing ↦ elim (Bool-cases (u.id == i)) [
      | inl hit ↦ inr (
          added_keeps people k u i found
            (inr (sym (found_key users k u found) ∙ (==_iff u.id i).0 hit)))
      | inr miss ↦ inl (user_later u people i miss ∙ nothing)
    ]
  ]

  no_person : (people : List User) → add_person (load_user users none) people ≡ people
  unfolding add_person load_user
  no_person people = refl

  nobody : (i : ℕ) → find_user [] i ≡ none
  unfolding find_user
  nobody i = refl

  still_missing :
      (people : List User) (k i : ℕ)
      → i ≡ k
      → find_user users k ≡ none
      → (find_user people i ≡ none) ⊎ Known people i
      → Known people i
  still_missing people k i same missing cases = elim cases [
    | inl nothing ↦ nothing ∙ sym (ap (find_user users) same ∙ missing)
    | inr known ↦ known
  ]

  -- The loops that fill the dictionary.
  people-Known :
      (keys : List (Option ℕ)) (people : List User) (i : ℕ)
      → IsFaithful people
      → In (some i) keys ⊎ Known people i
      → Known (add_people users keys people) i
  unfolding add_people
  people-Known [] people i faithful known = elim known [ inl no_key ↦ absurd no_key | inr k ↦ k ]
  people-Known (none ∷ keys) people i faithful known =
      subst (λ p. Known (add_people users keys p) i) (sym (no_person people))
        (people-Known keys people i faithful (elim known [
          | inl first ↦ elim first [ inl e ↦ absurd (cc e) | inr later ↦ inl later ]
          | inr k ↦ inr k
        ]))
  people-Known (some k ∷ keys) people i faithful known = elim (Option-cases (find_user users k)) [
    | inl missing ↦
        subst (λ p. Known (add_people users keys p) i) (sym (unknown_user people k missing))
          (people-Known keys people i faithful (elim known [
            | inr before ↦ inr before
            | inl first ↦ elim first [
              | inr later ↦ inl later
              | inl e ↦ inr (still_missing people k i (some_inj e) missing (faithful i))
            ]
          ]))
    | inr (u, found) ↦
        subst (λ p. Known (add_people users keys p) i) (sym (known_user people k u found))
          (people-Known keys (u ∷ people) i (added-IsFaithful people k u found faithful)
            (elim known [
              | inr before ↦ inr (added_keeps people k u i found (inl before))
              | inl first ↦ elim first [
                | inr later ↦ inl later
                | inl e ↦ inr (added_keeps people k u i found (inr (sym (some_inj e))))
              ]
            ]))
  ]

  -- Every author of a request is known to its dictionary.
  people_of-Known :
      (req : Request) (i : ℕ) → In (some i) (author_keys req) → Known (people_of users req) i
  unfolding people_of
  people_of-Known req i author =
      people-Known (author_keys req) [] i (λ j. inl (nobody j)) (inl author)

  sender-In :
      (m : Message) (ms : List Message) (more : List (Option ℕ))
      → In m ms
      → In (some m.sender_id) (map (λ o. some o.sender_id) ms ++ more)
  sender-In m [] more i = absurd i
  sender-In m (o ∷ ms) more i = elim i [
    | inl e ↦ inl (ap (λ x. some x.sender_id) e)
    | inr later ↦ inr (sender-In m ms more later)
  ]

  actor-In :
      (h : RequestHistory) (hs : List RequestHistory) (before : List (Option ℕ))
      → In h hs
      → In h.changed_by (before ++ map (λ o. o.changed_by) hs)
  actor-In h hs (k ∷ before) i = inr (actor-In h hs before i)
  actor-In h [] [] i = absurd i
  actor-In h (o ∷ hs) [] i = elim i [
    | inl e ↦ inl (ap (λ x. x.changed_by) e)
    | inr later ↦ inr (actor-In h hs [] later)
  ]

  map_In :
      {A B : Type 0} (f g : A → B) (xs : List A)
      → ((a : A) → In a xs → f a ≡ g a)
      → map f xs ≡ map g xs
  map_In f g [] h = refl
  map_In f g (x ∷ xs) h =
      ap (λ y. y ∷ map f xs) (h x (inl refl))
      ∙ ap (λ ys. g x ∷ ys) (map_In f g xs (λ a i. h a (inr i)))

  sender_named :
      (req : Request) (m : Message)
      → In m req.messages
      → message_out (people_of users req) m ≡ message_out users m
  unfolding message_out
  sender_named req m i =
      ap (signed_message m)
        (people_of-Known req m.sender_id (inr (inr (sender-In m req.messages _ i))))

  actor_loaded :
      (req : Request) (o : Option ℕ)
      → In o (author_keys req)
      → load_user (people_of users req) o ≡ load_user users o
  unfolding load_user
  actor_loaded req none i = refl
  actor_loaded req (some k) i = people_of-Known req k i

  actor_named :
      (req : Request) (h : RequestHistory)
      → In h req.history
      → history_out (people_of users req) h ≡ history_out users h
  unfolding history_out
  actor_named req h i = ap (signed_entry h) (
      actor_loaded req h.changed_by
        (inr (inr (actor-In h req.history (map (λ m. some m.sender_id) req.messages) i))))

  pub history_named :
      (req : Request)
      → map (history_out (people_of users req)) req.history ≡ map (history_out users) req.history
  history_named req = map_In _ _ req.history (actor_named req)

  visible-In :
      (all : Bool) (m : Message) (ms : List Message) → In m (visible_messages all ms) → In m ms
  unfolding visible_messages
  visible-In true m ms i = i
  visible-In false m ms i = (In-filter (λ o. not o.is_internal) m ms i).0

  pub messages_named :
      (req : Request) (all : Bool)
      → map (message_out (people_of users req)) (visible_messages all req.messages)
        ≡ map (message_out users) (visible_messages all req.messages)
  messages_named req all =
      map_In _ _ (visible_messages all req.messages)
        (λ m i. sender_named req m (visible-In all m req.messages i))
