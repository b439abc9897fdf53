-- ===== src/Policy/Glob.antt =====
-- path.Match(pattern, name) of Go's standard library, as matchesRule reads it: true where it reports
-- a match and no ErrBadPattern. It commits to the first place where a chunk after a star fits.
use eaim.Base.{
  ℕ, List, [], ◌∷◌, Option, none, some, Bool, true, false, not, ◌&&◌, ◌||◌, ◌≡◌, refl, leb, ◌==◌,
  if◌then◌else◌,
}
use eaim.Base.Text.{Text, codes, is_empty}

abbrev pub Spans : Type 0
Spans = List (ℕ × ℕ)

pub data Item : Type 0 where
  star any : Item
  literal : ℕ → Item
  class : Bool → Spans → Item

-- Where the reader of a pattern stands; in a class, with its negation and the ranges read so far.
pub data Mode : Type 0 where
  plain escape class_open : Mode
  ranges lo_escape : Bool → Spans → Mode
  after_lo hi hi_escape : Bool → Spans → ℕ → Mode

pub data Next : Type 0 where
  bad : Next
  go : Mode → Next
  emit : Item → Next

abbrev backslash : ℕ
backslash = 92

close_class : Bool → Spans → Next
close_class n [] = bad
close_class n (r ∷ rs) = emit (class n (r ∷ rs))

start_range : Bool → Spans → ℕ → Next
unfolding close_class
start_range n rs c =
    if c == b']'
    then close_class n rs
    else if c == b'-'
    then bad
    else if c == backslash
    then go (lo_escape n rs)
    else go (after_lo n rs c)

step : Mode → ℕ → Next
unfolding start_range
step plain c =
    if c == b'*'
    then emit star
    else if c == b'?'
    then emit any
    else if c == backslash
    then go escape
    else if c == b'['
    then go class_open
    else emit (literal c)
step escape c = emit (literal c)
step class_open c = if c == b'^' then go (ranges true []) else start_range false [] c
step (ranges n rs) c = start_range n rs c
step (lo_escape n rs) c = go (after_lo n rs c)
step (after_lo n rs lo) c = if c == b'-' then go (hi n rs lo) else start_range n ((lo, lo) ∷ rs) c
step (hi n rs lo) c =
    if c == b'-' || c == b']'
    then bad
    else if c == backslash
    then go (hi_escape n rs lo)
    else go (ranges n ((lo, c) ∷ rs))
step (hi_escape n rs lo) c = go (ranges n ((lo, c) ∷ rs))

-- `none` is ErrBadPattern.
parse : Mode → Text → Option (List Item)
unfolding step
parse plain [] = some []
parse _ [] = none
parse m (c ∷ s) = elim (step m c) [
  | bad ↦ none
  | go n ↦ parse n s
  | emit i ↦ elim (parse plain s) [ none ↦ none | some is ↦ some (i ∷ is) ]
]

-- A chunk, and whether a star stands before it.
abbrev pub Chunk : Type 0
Chunk = Bool × List Item

push : Item → List Chunk → List Chunk
push i [] = (false, i ∷ []) ∷ []
push i ((false, is) ∷ cs) = (false, i ∷ is) ∷ cs
push i ((true, is) ∷ cs) = (false, i ∷ []) ∷ (true, is) ∷ cs

star_front : List Chunk → List Chunk
star_front [] = (true, []) ∷ []
star_front ((_, is) ∷ cs) = (true, is) ∷ cs

chunks : List Item → List Chunk
unfolding push star_front
chunks [] = []
chunks (star ∷ is) = star_front (chunks is)
chunks (any ∷ is) = push any (chunks is)
chunks (literal c ∷ is) = push (literal c) (chunks is)
chunks (class n rs ∷ is) = push (class n rs) (chunks is)

in_spans : Spans → ℕ → Bool
in_spans [] c = false
in_spans ((a, b) ∷ rs) c = (leb a c && leb c b) || in_spans rs c

accepts : Item → ℕ → Bool
unfolding in_spans
accepts star c = false
accepts any c = not (c == b'/')
accepts (literal d) c = c == d
accepts (class n rs) c = if n then not (in_spans rs c) else in_spans rs c

-- What is left of the name after the chunk.
match_chunk : List Item → Text → Option Text
unfolding accepts
match_chunk [] s = some s
match_chunk (i ∷ is) [] = none
match_chunk (i ∷ is) (c ∷ s) = if accepts i c then match_chunk is s else none

-- The last chunk has to use up the name.
fits : Bool → Option Text → Option Text
unfolding is_empty
fits last none = none
fits last (some t) = if not last || is_empty t then some t else none

slide : Bool → List Item → Text → Option Text
unfolding fits match_chunk
slide last is [] = none
slide last is (c ∷ s) =
    let rest = slide last is s in
    if c == b'/'
    then none
    else elim (fits last (match_chunk is s)) [ none ↦ rest | some t ↦ some t ]

place : Bool → Bool → List Item → Text → Option Text
unfolding slide
place starred last is s = elim (fits last (match_chunk is s)) [
  | some t ↦ some t
  | none ↦ if starred then slide last is s else none
]

no_slash : Text → Bool
no_slash [] = true
no_slash (c ∷ s) = not (c == b'/') && no_slash s

is_nil : List Chunk → Bool
is_nil [] = true
is_nil (c ∷ cs) = false

match_chunks : List Chunk → Text → Bool
unfolding place no_slash is_nil
match_chunks [] s = is_empty s
match_chunks ((true, []) ∷ cs) s = no_slash s
match_chunks ((true, i ∷ is) ∷ cs) s = elim (place true (is_nil cs) (i ∷ is) s) [
  | none ↦ false
  | some t ↦ match_chunks cs t
]
match_chunks ((false, is) ∷ cs) s = elim (place false (is_nil cs) is s) [
  | none ↦ false
  | some t ↦ match_chunks cs t
]

unfoldable pub path_match : Text → Text → Bool
unfolding parse chunks match_chunks is_empty
path_match pattern name = elim (parse plain pattern) [
  | none ↦ false
  | some is ↦ match_chunks (chunks is) name
]

star_suffix : path_match (codes "crm-*-bot") (codes "crm-eu-west-bot") ≡ true
unfolding path_match
star_suffix = refl

star_stops_at_slash : path_match (codes "team*") (codes "team/a") ≡ false
unfolding path_match
star_stops_at_slash = refl

class_range : path_match (codes "v[0-9][^a-c]?") (codes "v7xz") ≡ true
unfolding path_match
class_range = refl

open_class : path_match (codes "v[0-9") (codes "v7") ≡ false
unfolding path_match
open_class = refl
