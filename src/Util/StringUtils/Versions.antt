-- ===== src/Util/StringUtils/Versions.antt =====
-- `versionCmp` of src/mongo/util/stringutils.cpp in either order of the versions.
use Prim.Native.Nat.{Ordering, lt, eq, gt}
use mongo_cxx_driver.Base.{
  opposite, ℕ, ◌≡◌, ◌≢◌, refl, Bool, true, false, ◌&&◌, List, [], ◌∷◌, Option, none, some,
  if◌then◌else◌, ltb, length, arith,
}
use mongo_cxx_driver.Net.HostAndPort.{text_eq}
use mongo_cxx_driver.Util.StringUtils.{cmp, version_cmp, is_suffixed}
use mongo_cxx_driver.Util.StringUtils.Compare.{cmp-opposite}

text_eq-flip : (s t : List ℕ) → text_eq t s ≡ text_eq s t
unfolding text_eq
text_eq-flip [] [] = refl
text_eq-flip [] (d ∷ t) = refl
text_eq-flip (c ∷ s) [] = refl
text_eq-flip (c ∷ s) (d ∷ t) = ground (arith, text_eq-flip s t)

-- The tests of `version_cmp` in either order of the versions.
pick-opposite :
    (same shorter longer p q : Bool) (c c' : Option Ordering)
    → shorter && longer ≡ false
    → c ≢ none
    → c' ≡ opposite c
    → ((if same
          then some eq
          else if shorter
          then (if p then some gt else c)
          else if longer
          then (if q then some lt else c)
          else c)
        ≢ none)
      × ((if same
            then some eq
            else if longer
            then (if q then some gt else c')
            else if shorter
            then (if p then some lt else c')
            else c')
          ≡ opposite (
              if same
              then some eq
              else if shorter
              then (if p then some gt else c)
              else if longer
              then (if q then some lt else c)
              else c))
pick-opposite true shorter longer p q c c' h k l = (λ e. cc, refl)
pick-opposite false true true p q c c' h k l = cc
pick-opposite false true false true q c c' h k l = (λ e. cc, refl)
pick-opposite false true false false q c c' h k l = (k, l)
pick-opposite false false true p true c c' h k l = (λ e. cc, refl)
pick-opposite false false true p false c c' h k l = (k, l)
pick-opposite false false false p q c c' h k l = (k, l)

-- For all versions the comparison ends, and the other order of the versions gives the opposite answer.
pub version_cmp-opposite :
    (s t : List ℕ) → (version_cmp s t ≢ none) × (version_cmp t s ≡ opposite (version_cmp s t))
unfolding version_cmp
version_cmp-opposite s t =
    let (ends, turned) = cmp-opposite s t false in
    let one : ltb (length s) (length t) && ltb (length t) (length s) ≡ false = ground arith in
    rw (text_eq-flip s t) (
      pick-opposite (text_eq s t) (ltb (length s) (length t)) (ltb (length t) (length s))
        (is_suffixed s t) (is_suffixed t s) (cmp s t false) (cmp t s false) one ends turned)
