-- ===== src/Util/StringUtils.antt =====
-- src/mongo/util/stringutils.cpp. A text is its bytes; `char` is signed.
pub mod Split
pub mod Compare
pub mod Versions
mod Tests
use Prim.Native.Nat.{Ordering, lt, eq, gt, compare}
use mongo_cxx_driver.Base.{
  ℕ, zero, suc, ◌+◌, ◌-◌, ◌==◌, Bool, true, false, not, ◌&&◌, ◌||◌, List, [], ◌∷◌, ◌++◌, Option,
  none, some, if◌then◌else◌, ltb, leb, length,
}
use mongo_cxx_driver.Base.{get_or}
use mongo_cxx_driver.Net.HostAndPort.{compare_text, text_eq}

abbrev pub extend : ℕ → List (List ℕ) → List (List ℕ)
extend c [] = (c ∷ []) ∷ []
extend c (piece ∷ pieces) = (c ∷ piece) ∷ pieces

-- The loop of `splitStringDelim`, from the start of a piece on.
unfoldable pub pieces_of : ℕ → List ℕ → List (List ℕ)
pieces_of delim [] = [] ∷ []
pieces_of delim (c ∷ s) =
    let rest = pieces_of delim s in if c == delim then [] ∷ rest else extend c rest

-- `splitStringDelim`.
unfoldable pub split_string_delim : List ℕ → ℕ → List (List ℕ)
unfolding pieces_of
split_string_delim [] delim = []
split_string_delim (c ∷ s) delim = pieces_of delim (c ∷ s)

-- `joinStringDelim`.
unfoldable pub join_string_delim : List (List ℕ) → ℕ → List ℕ
join_string_delim [] delim = []
join_string_delim (s ∷ []) delim = s
join_string_delim (s ∷ t ∷ more) delim = s ++ (delim ∷ join_string_delim (t ∷ more) delim)

-- `isdigit` on a `char`.
abbrev pub is_digit : ℕ → Bool
is_digit c = leb b'0' c && leb c b'9'

unfoldable pub skip_zeros : List ℕ → List ℕ
skip_zeros [] = []
skip_zeros (c ∷ s) = let rest = skip_zeros s in if c == b'0' then rest else c ∷ s

unfoldable pub digits_at : List ℕ → List ℕ
digits_at [] = []
digits_at (c ∷ s) = let rest = digits_at s in if is_digit c then c ∷ rest else []

unfoldable pub behind_digits : List ℕ → List ℕ
behind_digits [] = []
behind_digits (c ∷ s) = let rest = behind_digits s in if is_digit c then rest else c ∷ s

-- A `char` as a number that orders like it.
abbrev pub signed : ℕ → ℕ
signed c = if ltb c 128 then c + 128 else c - 128

-- Which text has a property that decides if only one of them has it.
unfoldable pub by_flags :
    Bool → Bool → Ordering → Option Ordering → Option Ordering → Option Ordering
by_flags true true first both neither = both
by_flags true false first both neither = some first
by_flags false true first both neither = elim first [ lt ↦ some gt | eq ↦ some eq | gt ↦ some lt ]
by_flags false false first both neither = neither

abbrev pub decided_or : Ordering → Option Ordering → Option Ordering
decided_or lt next = some lt
decided_or eq next = next
decided_or gt next = some gt

-- Two numbers without leading zeros: by length, then by digits.
unfoldable pub compare_numbers : List ℕ → List ℕ → Ordering
unfolding compare_text
compare_numbers a b = elim (compare (length a) (length b)) [
  | lt ↦ lt
  | eq ↦ compare_text a b
  | gt ↦ gt
]

-- The tests behind the loop.
unfoldable pub at_end : List ℕ → List ℕ → Ordering
at_end [] [] = eq
at_end (c ∷ s) t = if not (c == 0) then gt else eq
at_end [] (c ∷ t) = if not (c == 0) then lt else eq

abbrev pub number_at : Bool → List ℕ → List ℕ
number_at start s = if start then skip_zeros s else s

-- The tests on two bytes that are not dots: `a` and `b` are the texts from the number on, if there is one.
unfoldable pub by_char :
    Bool → ℕ → ℕ → List ℕ → List ℕ → Option Ordering → Option Ordering → Option Ordering
unfolding by_flags compare_numbers digits_at
by_char true c d a b next_number next_char = decided_or (compare (signed c) (signed d)) next_char
by_char false c d a b next_number next_char =
    by_flags (is_digit c) (is_digit d) gt
      (decided_or (compare_numbers (digits_at a) (digits_at b)) next_number)
      (decided_or (compare (signed c) (signed d)) next_char)

-- A turn of the loop of `LexNumCmp::cmp`, with what the next ones say.
unfoldable pub turn :
    Bool
    → ℕ
    → ℕ
    → List ℕ
    → List ℕ
    → Option Ordering
    → Option Ordering
    → Option Ordering
    → Option Ordering
unfolding by_flags by_char
turn lex_only c d a b next_word next_number next_char =
    by_flags (c == b'.') (d == b'.') lt next_word (
      by_flags (c == 255) (d == 255) gt (by_char lex_only c d a b next_number next_char)
        (by_char lex_only c d a b next_number next_char))

-- The loop, which takes a byte of each text at least; `start` is `startWord`.
unfoldable pub cmp_from : ℕ → Bool → Bool → List ℕ → List ℕ → Option Ordering
unfolding skip_zeros behind_digits at_end turn
cmp_from fuel lex_only start [] t = some (at_end [] t)
cmp_from fuel lex_only start (c ∷ s) [] = some (at_end (c ∷ s) [])
cmp_from zero lex_only start (c ∷ s) (d ∷ t) = none
cmp_from (suc fuel) lex_only start (c ∷ s) (d ∷ t) =
    let a = number_at start (c ∷ s) in
    let b = number_at start (d ∷ t) in
    turn lex_only c d a b (cmp_from fuel lex_only true s t)
      (cmp_from fuel lex_only false (behind_digits a) (behind_digits b))
      (cmp_from fuel lex_only false s t)

-- `LexNumCmp::cmp`.
unfoldable pub cmp : List ℕ → List ℕ → Bool → Option Ordering
unfolding cmp_from
cmp s t lex_only = cmp_from (length s + length t) lex_only true s t

-- `strncmp(s, t, s.size()) == 0` on texts of at least that size.
unfoldable pub same_front : List ℕ → List ℕ → Bool
same_front [] t = true
same_front (c ∷ s) [] = false
same_front (c ∷ s) (d ∷ t) =
    let rest = same_front s t in if c == d then (if c == 0 then true else rest) else false

-- Whether the longer text goes on with a dash behind the shorter one.
abbrev pub is_suffixed : List ℕ → List ℕ → Bool
is_suffixed short long = same_front short long && get_or long (length short) 0 == b'-'

-- `versionCmp`.
unfoldable pub version_cmp : List ℕ → List ℕ → Option Ordering
version_cmp rhs lhs =
    if text_eq rhs lhs
    then some eq
    else if ltb (length rhs) (length lhs)
    then (if is_suffixed rhs lhs then some gt else cmp rhs lhs false)
    else if ltb (length lhs) (length rhs)
    then (if is_suffixed lhs rhs then some lt else cmp rhs lhs false)
    else cmp rhs lhs false
