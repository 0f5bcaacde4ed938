-- ===== src/Models/Status.antt =====
-- backend/app/models/request.py, class RequestStatus, and the labels of services/labels.py. The
-- column holds any text, so a status that the program does not know keeps its spelling.
use registrator_ofid.Base.{
  ◌≡◌, ap, ◌∙◌, arith, ==_iff, true, ℕ, Bool, List, [], ◌∷◌, ◌==◌, ◌&&◌, any, Option, none, some,
}
use registrator_ofid.Base.Text.{Text, text, text_eq, text_eq_sym, text_eq→≡}

pub data Status : Type 0 where
  new accepted in_progress completed rejected returned : Status
  unknown : Text → Status

unfoldable pub rank : Status → ℕ
rank new = 0
rank accepted = 1
rank in_progress = 2
rank completed = 3
rank rejected = 4
rank returned = 5
rank (unknown _) = 6

unfoldable pub other_spelling : Status → Text
other_spelling new = []
other_spelling accepted = []
other_spelling in_progress = []
other_spelling completed = []
other_spelling rejected = []
other_spelling returned = []
other_spelling (unknown t) = t

-- `a == b` on two statuses.
unfoldable pub same : Status → Status → Bool
unfolding rank other_spelling
same a b = (rank a == rank b) && text_eq (other_spelling a) (other_spelling b)

number_sym : (i j : ℕ) → (i == j) ≡ (j == i)
number_sym i j = ground arith

pub same_sym : (a b : Status) → same a b ≡ same b a
unfolding same
same_sym a b =
    ap (λ t. t && text_eq (other_spelling a) (other_spelling b)) (number_sym (rank a) (rank b))
    ∙ ap (λ t. (rank b == rank a) && t) (text_eq_sym (other_spelling a) (other_spelling b))

-- The same status compares to every other in the same way.
pub same_trans : (a b c : Status) → same a b ≡ true → same a c ≡ same b c
unfolding same
same_trans a b c h =
    ap (λ n. (n == rank c) && text_eq (other_spelling a) (other_spelling c))
      ((==_iff (rank a) (rank b)).0 (ground (arith, h)))
    ∙ ap (λ t. (rank b == rank c) && text_eq t (other_spelling c))
        (text_eq→≡ (other_spelling a) (other_spelling b) (ground (arith, h)))

-- `status in statuses`
unfoldable pub is_in : Status → List Status → Bool
unfolding same
is_in s statuses = any (same s) statuses

abbrev pub all_statuses : List Status
all_statuses = new ∷ accepted ∷ in_progress ∷ completed ∷ rejected ∷ returned ∷ []

abbrev pub open_statuses : List Status
open_statuses = new ∷ accepted ∷ in_progress ∷ returned ∷ []

abbrev pub closed_statuses : List Status
closed_statuses = completed ∷ rejected ∷ []

abbrev pub sla_running_statuses : List Status
sla_running_statuses = new ∷ accepted ∷ in_progress ∷ []

-- `status_label`
unfoldable pub status_label : Option Status → Text
status_label none = text "—"
status_label (some new) = text "Yangi"
status_label (some accepted) = text "Qabul qilindi"
status_label (some in_progress) = text "Jarayonda"
status_label (some completed) = text "Javob berildi"
status_label (some rejected) = text "Rad etildi"
status_label (some returned) = text "Qaytarildi"
status_label (some (unknown t)) = t
