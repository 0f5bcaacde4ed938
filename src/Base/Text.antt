-- ===== src/Base/Text.antt =====
-- Python's `str` as the list of its code points, with `strip` and truthiness.
use Prim.Native.Nat.{ℕ}
use Prim.Native.Char.{code}
use Prim.Native.String.{String}
use native.Mathlib.Omega.{arith}
use mathlib.Core.Path.{◌≡◌, refl, ◌∙◌, ap}
use mathlib.Core.Bool.{Bool, true, false, not, ◌&&◌, ◌||◌}
use mathlib.Core.Option.{Option, none, some}
use mathlib.Core.List.{List, [], ◌∷◌, ◌++◌, reverse, reverse-cons}
use registrator_ofid.Base.Lists.{any}
use registrator_ofid.Base.Tests.{leb, ◌==◌, if◌then◌else◌}

abbrev pub Text : Type 0
Text = List ℕ

-- The code points of a literal.
abbrev pub text : String → Text
text String.[] = []
text (String.◌∷◌ c s) = code c ∷ text s

-- `str.isspace` on one code point.
unfoldable pub is_space : ℕ → Bool
is_space c =
    (leb 9 c && leb c 13)
    || (leb 28 c && leb c 32)
    || (c == 0x85)
    || (c == 0xa0)
    || (c == 0x1680)
    || (leb 0x2000 c && leb c 0x200a)
    || (c == 0x2028)
    || (c == 0x2029)
    || (c == 0x202f)
    || (c == 0x205f)
    || (c == 0x3000)

-- `str.lstrip()`
unfoldable pub lstrip : Text → Text
lstrip [] = []
lstrip (c ∷ s) = let rest = lstrip s in if is_space c then rest else c ∷ s

-- `str.strip()`
unfoldable pub strip : Text → Text
unfolding lstrip is_space
strip s = reverse (lstrip (reverse (lstrip s)))

-- `bool(s)`
abbrev pub is_nonempty : Text → Bool
is_nonempty [] = false
is_nonempty (c ∷ s) = true

-- `s or ""`
abbrev pub or_empty : Option Text → Text
or_empty none = []
or_empty (some s) = s

-- `s == t`
abbrev pub text_eq : Text → Text → Bool
text_eq [] [] = true
text_eq [] (d ∷ t) = false
text_eq (c ∷ s) [] = false
text_eq (c ∷ s) (d ∷ t) = (c == d) && text_eq s t

pub text_eq_refl : (s : Text) → text_eq s s ≡ true
text_eq_refl [] = refl
text_eq_refl (c ∷ s) = ground (arith, text_eq_refl s)

pub text_eq→≡ : (s t : Text) → text_eq s t ≡ true → s ≡ t
text_eq→≡ [] [] h = refl
text_eq→≡ [] (d ∷ t) h = absurd (ground arith)
text_eq→≡ (c ∷ s) [] h = absurd (ground arith)
text_eq→≡ (c ∷ s) (d ∷ t) h =
    let heads : c ≡ d = ground (arith, h) in
    let tails : text_eq s t ≡ true = ground (arith, h) in
    ap (λ x. x ∷ s) heads ∙ ap (λ u. d ∷ u) (text_eq→≡ s t tails)

pub text_eq_sym : (s t : Text) → text_eq s t ≡ text_eq t s
text_eq_sym [] [] = refl
text_eq_sym [] (d ∷ t) = refl
text_eq_sym (c ∷ s) [] = refl
text_eq_sym (c ∷ s) (d ∷ t) = ground (arith, text_eq_sym s t)

-- Some character of the text is not white space.
abbrev pub has_ink : Text → Bool
has_ink s = any (λ c. not (is_space c)) s

any-append : (p : ℕ → Bool) (s t : Text) → any p (s ++ t) ≡ (any p s || any p t)
any-append p [] t = refl
any-append p (c ∷ s) t = ground (arith, any-append p s t)

any-reverse : (p : ℕ → Bool) (s : Text) → any p (reverse s) ≡ any p s
any-reverse p [] = refl
any-reverse p (c ∷ s) =
    rw (reverse-cons c s, any-append p (reverse s) (c ∷ []), any-reverse p s) (ground arith)

has_ink-lstrip : (s : Text) → has_ink (lstrip s) ≡ has_ink s
unfolding lstrip
has_ink-lstrip [] = refl
has_ink-lstrip (c ∷ s) = ground (arith, has_ink-lstrip s)

-- A text is blank exactly when stripping it leaves nothing, and stripping keeps what is not blank.
nonempty-lstrip : (s : Text) → is_nonempty (lstrip s) ≡ has_ink s
unfolding lstrip
nonempty-lstrip [] = refl
nonempty-lstrip (c ∷ s) = ground (arith, nonempty-lstrip s)

nonempty-reverse : (s : Text) → is_nonempty (reverse s) ≡ is_nonempty s
nonempty-reverse [] = refl
nonempty-reverse (c ∷ s) = rw (reverse-cons c s) (nonempty_snoc (reverse s) c)
  where
    nonempty_snoc : (t : Text) (d : ℕ) → is_nonempty (t ++ d ∷ []) ≡ true
    nonempty_snoc [] d = refl
    nonempty_snoc (e ∷ t) d = refl

pub has_ink-strip : (s : Text) → has_ink (strip s) ≡ has_ink s
unfolding strip
has_ink-strip s =
    any-reverse _ (lstrip (reverse (lstrip s)))
    ∙ has_ink-lstrip (reverse (lstrip s))
    ∙ any-reverse _ (lstrip s)
    ∙ has_ink-lstrip s

pub nonempty-strip : (s : Text) → is_nonempty (strip s) ≡ has_ink s
unfolding strip
nonempty-strip s =
    nonempty-reverse (lstrip (reverse (lstrip s)))
    ∙ nonempty-lstrip (reverse (lstrip s))
    ∙ any-reverse _ (lstrip s)
    ∙ has_ink-lstrip s

-- The word that a text begins with, which may be empty, and the words after it.
words : Text → Text × List Text
words [] = ([], [])
words (c ∷ s) =
    let (word, rest) = words s in
    if is_space c then ([], if is_nonempty word then word ∷ rest else rest) else (c ∷ word, rest)

-- `s.split()`
unfoldable pub split : Text → List Text
unfolding words is_space
split s = let (word, rest) = words s in if is_nonempty word then word ∷ rest else rest
