-- ===== src/Util/StringUtils/Compare.antt =====
-- `LexNumCmp::cmp` of src/mongo/util/stringutils.cpp in either order of the texts.
use Prim.Native.Nat.{Ordering, lt, eq, gt, compare}
use mongo_cxx_driver.Base.{
  ℕ, zero, suc, ◌+◌, ◌≡◌, ◌≢◌, ◌≤◌, refl, ap, ◌==◌, Bool, true, false, not, List, [], ◌∷◌, Option,
  none, some, if◌then◌else◌, length, arith, flip, compare-flip, opposite,
}
use mongo_cxx_driver.Net.HostAndPort.Order.{compare_text-flip}
use mongo_cxx_driver.Util.StringUtils.{
  is_digit, skip_zeros, digits_at, behind_digits, signed, by_flags, decided_or, compare_numbers,
  at_end, number_at, by_char, turn, cmp_from, cmp,
}

by_flags-opposite :
    (p q : Bool) (first : Ordering) (both both' neither neither' : Option Ordering)
    → both' ≡ opposite both
    → neither' ≡ opposite neither
    → by_flags q p first both' neither' ≡ opposite (by_flags p q first both neither)
unfolding by_flags
by_flags-opposite true true first both both' neither neither' h k = h
by_flags-opposite false false first both both' neither neither' h k = k
by_flags-opposite true false lt both both' neither neither' h k = refl
by_flags-opposite true false eq both both' neither neither' h k = refl
by_flags-opposite true false gt both both' neither neither' h k = refl
by_flags-opposite false true lt both both' neither neither' h k = refl
by_flags-opposite false true eq both both' neither neither' h k = refl
by_flags-opposite false true gt both both' neither neither' h k = refl

decided_or-opposite :
    (o o' : Ordering) (next next' : Option Ordering)
    → o' ≡ flip o
    → next' ≡ opposite next
    → decided_or o' next' ≡ opposite (decided_or o next)
decided_or-opposite lt o' next next' h k = rw h refl
decided_or-opposite eq o' next next' h k = rw h k
decided_or-opposite gt o' next next' h k = rw h refl

compare_numbers-flip : (a b : List ℕ) → compare_numbers b a ≡ flip (compare_numbers a b)
unfolding compare_numbers
compare_numbers-flip a b = ground (arith, compare_text-flip a b)

at_end-flip : (t : List ℕ) → (at_end t [] ≡ flip (at_end [] t)) × (at_end [] t ≡ flip (at_end t []))
unfolding at_end
at_end-flip [] = (refl, refl)
at_end-flip (c ∷ t) = choose (not (c == 0))
  where
    choose :
        (b : Bool)
        → ((if b then gt else eq) ≡ flip (if b then lt else eq))
          × ((if b then lt else eq) ≡ flip (if b then gt else eq))
    choose true = (refl, refl)
    choose false = (refl, refl)

by_char-opposite :
    (lex_only : Bool) (c d : ℕ) (a b : List ℕ) (number number' char char' : Option Ordering)
    → number' ≡ opposite number
    → char' ≡ opposite char
    → by_char lex_only d c b a number' char' ≡ opposite (by_char lex_only c d a b number char)
unfolding by_char
by_char-opposite true c d a b number number' char char' h k =
    decided_or-opposite _ _ char char' (compare-flip (signed c) (signed d)) k
by_char-opposite false c d a b number number' char char' h k =
    by_flags-opposite (is_digit c) (is_digit d) gt _ _ _ _
      (decided_or-opposite _ _ number number' (compare_numbers-flip (digits_at a) (digits_at b)) h)
      (decided_or-opposite _ _ char char' (compare-flip (signed c) (signed d)) k)

turn-opposite :
    (lex_only : Bool) (c d : ℕ) (a b : List ℕ)
    (word word' number number' char char' : Option Ordering)
    → word' ≡ opposite word
    → number' ≡ opposite number
    → char' ≡ opposite char
    → turn lex_only d c b a word' number' char' ≡ opposite (turn lex_only c d a b word number char)
unfolding turn
turn-opposite lex_only c d a b word word' number number' char char' g h k =
    let bytes = by_char-opposite lex_only c d a b number number' char char' h k in
    by_flags-opposite (c == b'.') (d == b'.') lt word word' _ _ g
      (by_flags-opposite (c == 255) (d == 255) gt _ _ _ _ bytes bytes)

cmp_from-opposite :
    (fuel : ℕ) (lex_only start : Bool) (s t : List ℕ)
    → cmp_from fuel lex_only start t s ≡ opposite (cmp_from fuel lex_only start s t)
unfolding cmp_from
cmp_from-opposite fuel lex_only start [] [] = refl
cmp_from-opposite fuel lex_only start [] (d ∷ t) = ap some (at_end-flip (d ∷ t)).0
cmp_from-opposite fuel lex_only start (c ∷ s) [] = ap some (at_end-flip (c ∷ s)).1
cmp_from-opposite zero lex_only start (c ∷ s) (d ∷ t) = refl
cmp_from-opposite (suc fuel) lex_only start (c ∷ s) (d ∷ t) =
    turn-opposite lex_only c d (number_at start (c ∷ s)) (number_at start (d ∷ t)) _ _ _ _ _ _
      (cmp_from-opposite fuel lex_only true s t)
      (cmp_from-opposite fuel lex_only false (behind_digits (number_at start (c ∷ s)))
        (behind_digits (number_at start (d ∷ t))))
      (cmp_from-opposite fuel lex_only false s t)

length-skip_zeros : (s : List ℕ) → length (skip_zeros s) ≤ length s
unfolding skip_zeros
length-skip_zeros [] = omega arith
length-skip_zeros (c ∷ s) = let shorter = length-skip_zeros s in ground arith

length-behind_digits : (s : List ℕ) → length (behind_digits s) ≤ length s
unfolding behind_digits
length-behind_digits [] = omega arith
length-behind_digits (c ∷ s) = let shorter = length-behind_digits s in ground arith

-- What is behind a number is shorter than the text from it on.
behind_number :
    (start : Bool) (c : ℕ) (s : List ℕ)
    → is_digit c ≡ true
    → length (behind_digits (number_at start (c ∷ s))) ≤ length s
unfolding behind_digits skip_zeros
behind_number true c s h =
    let zeros = length-skip_zeros s in
    let digits = length-behind_digits s in
    let both = length-behind_digits (skip_zeros s) in ground arith
behind_number false c s h = let digits = length-behind_digits s in rw h digits

by_flags_some :
    (p q : Bool) (first : Ordering) (both neither : Option Ordering)
    → (p ≡ true → both ≢ none)
    → neither ≢ none
    → by_flags p q first both neither ≢ none
unfolding by_flags
by_flags_some true true first both neither h k = h refl
by_flags_some false false first both neither h k = k
by_flags_some true false first both neither h k = λ e. cc
by_flags_some false true lt both neither h k = λ e. cc
by_flags_some false true eq both neither h k = λ e. cc
by_flags_some false true gt both neither h k = λ e. cc

decided_or_some : (o : Ordering) (next : Option Ordering) → next ≢ none → decided_or o next ≢ none
decided_or_some lt next h = λ e. cc
decided_or_some eq next h = h
decided_or_some gt next h = λ e. cc

by_char_some :
    (lex_only : Bool) (c d : ℕ) (a b : List ℕ) (number char : Option Ordering)
    → (is_digit c ≡ true → number ≢ none)
    → char ≢ none
    → by_char lex_only c d a b number char ≢ none
unfolding by_char
by_char_some true c d a b number char h k = decided_or_some (compare (signed c) (signed d)) char k
by_char_some false c d a b number char h k =
    by_flags_some (is_digit c) (is_digit d) gt _ _
      (λ digit. decided_or_some (compare_numbers (digits_at a) (digits_at b)) number (h digit))
      (decided_or_some (compare (signed c) (signed d)) char k)

cmp_from_some :
    (fuel : ℕ) (lex_only start : Bool) (s t : List ℕ)
    → length s ≤ fuel
    → cmp_from fuel lex_only start s t ≢ none
unfolding cmp_from turn
cmp_from_some fuel lex_only start [] t h = λ e. cc
cmp_from_some fuel lex_only start (c ∷ s) [] h = λ e. cc
cmp_from_some zero lex_only start (c ∷ s) (d ∷ t) h = absurd (omega arith)
cmp_from_some (suc fuel) lex_only start (c ∷ s) (d ∷ t) h =
    let a = number_at start (c ∷ s) in
    let b = number_at start (d ∷ t) in
    let bytes =
      by_char_some lex_only c d a b
        (cmp_from fuel lex_only false (behind_digits a) (behind_digits b))
        (cmp_from fuel lex_only false s t)
        (λ digit.
          let shorter = behind_number start c s digit in
          cmp_from_some fuel lex_only false (behind_digits a) (behind_digits b) (omega arith))
        (cmp_from_some fuel lex_only false s t (omega arith)) in
    by_flags_some (c == b'.') (d == b'.') lt _ _
      (λ dot. cmp_from_some fuel lex_only true s t (omega arith))
      (by_flags_some (c == 255) (d == 255) gt _ _ (λ last. bytes) bytes)

-- For all texts and either setting of `lexOnly`, the comparison ends within as much fuel as the two texts have
-- bytes, and the other order of the texts gives the opposite answer.
pub cmp-opposite :
    (s t : List ℕ) (lex_only : Bool)
    → (cmp s t lex_only ≢ none) × (cmp t s lex_only ≡ opposite (cmp s t lex_only))
unfolding cmp
cmp-opposite s t lex_only =
    let same : length t + length s ≡ length s + length t = omega arith in
    (
      cmp_from_some (length s + length t) lex_only true s t (omega arith),
      rw same (cmp_from-opposite (length s + length t) lex_only true s t),
    )
