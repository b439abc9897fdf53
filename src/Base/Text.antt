-- ===== src/Base/Text.antt =====
-- Go strings as lists of code points, and what the source uses of package strings. Case folding is
-- that of ASCII.
use Prim.Native.Nat.{ℕ, ◌+◌}
use Prim.Native.Char.{code}
use Prim.Native.String.{String}
use mathlib.Core.Path.{◌≡◌, refl, subst}
use mathlib.Core.Logic.{◌↔◌}
use mathlib.Core.Bool.{Bool, true, false, ◌&&◌, ◌||◌}
use mathlib.Core.Option.{Option, none, some}
use mathlib.Core.List.{List, [], ◌∷◌, map}
use native.Mathlib.Omega.{arith}
use package.eaim.Base.Tests.{◌==◌, leb, if◌then◌else◌}

abbrev pub Text : Type 0
Text = List ℕ

abbrev pub codes : String → Text
codes String.[] = []
codes (String.◌∷◌ c s) = code c ∷ codes s

unfoldable pub text_eq : Text → Text → Bool
text_eq [] [] = true
text_eq (c ∷ s) (d ∷ t) = c == d && text_eq s t
text_eq _ _ = false

unfoldable pub is_empty : Text → Bool
is_empty [] = true
is_empty (c ∷ s) = false

-- strings.HasPrefix with its arguments swapped.
unfoldable pub has_prefix : Text → Text → Bool
has_prefix [] s = true
has_prefix (c ∷ p) [] = false
has_prefix (c ∷ p) (d ∷ s) = c == d && has_prefix p s

-- strings.Contains(s, sub).
unfoldable pub contains : Text → Text → Bool
contains [] sub = is_empty sub
contains (c ∷ s) sub = has_prefix sub (c ∷ s) || contains s sub

lower_code : ℕ → ℕ
lower_code c = if leb b'A' c && leb c b'Z' then c + 32 else c

-- strings.ToLower.
unfoldable pub to_lower : Text → Text
unfolding lower_code
to_lower = map lower_code

-- strings.Index(s, c) for one byte c, as the text before it.
unfoldable pub before : ℕ → Text → Option Text
before c [] = none
before c (d ∷ s) =
    if d == c then some [] else elim (before c s) [ none ↦ none | some p ↦ some (d ∷ p) ]

pub text_eq_refl : (s : Text) → text_eq s s ≡ true
unfolding text_eq
text_eq_refl [] = refl
text_eq_refl (c ∷ s) = ground (arith, text_eq_refl s)

pub text_eq→eq : (s t : Text) → text_eq s t ≡ true → s ≡ t
unfolding text_eq
text_eq→eq [] [] h = refl
text_eq→eq [] (d ∷ t) h = cc
text_eq→eq (c ∷ s) [] h = cc
text_eq→eq (c ∷ s) (d ∷ t) h = ground (arith, text_eq→eq s t)

pub text_eq_iff : (s t : Text) → (text_eq s t ≡ true) ↔ (s ≡ t)
text_eq_iff s t = (text_eq→eq s t, λ e. subst (λ u. text_eq s u ≡ true) e (text_eq_refl s))

pub text_neq : (s t : Text) → text_eq s t ≡ false → ¬ (s ≡ t)
text_neq s t n e = absurd (cc (n, subst (λ u. text_eq s u ≡ true) e (text_eq_refl s)))

pub is_empty→eq : (s : Text) → is_empty s ≡ true → s ≡ []
unfolding is_empty
is_empty→eq [] h = refl
is_empty→eq (c ∷ s) h = cc

lower_word : to_lower (codes "Read:CRM") ≡ codes "read:crm"
unfolding to_lower
lower_word = refl

finds : contains (codes "my_read_file_2") (codes "read_file") ≡ true
unfolding contains has_prefix is_empty
finds = refl
