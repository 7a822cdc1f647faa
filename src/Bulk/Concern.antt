-- ===== src/Bulk/Concern.antt =====
-- src/mongo/client/write_concern.cpp.
use mongo_cxx_driver.Base.{
  ℕ, Bool, true, false, not, ◌||◌, ◌&&◌, List, [], ◌∷◌, ◌++◌, length, ◌≤◌, arith, ◌≡◌, refl,
}
use mongo_cxx_driver.Base.Int.{ℤ, pos}
use mongo_cxx_driver.Net.HostAndPort.{int_eq}

-- `_enabled` is the five flags.
pub record WriteConcern : Type 0 where
  pub enabled_w : Bool
  pub enabled_w_str : Bool
  pub enabled_j : Bool
  pub enabled_fsync : Bool
  pub enabled_timeout : Bool
  pub w : ℤ
  pub w_str : List ℕ
  pub j : Bool
  pub fsync_field : Bool
  pub wtimeout : ℤ

-- `WriteConcern()`.
abbrev pub default_concern : WriteConcern
default_concern = record {
  enabled_w = false;
  enabled_w_str = false;
  enabled_j = false;
  enabled_fsync = false;
  enabled_timeout = false;
  w = pos 1;
  w_str = [];
  j = false;
  fsync_field = false;
  wtimeout = pos 0;
}

-- The setters.
unfoldable pub nodes : WriteConcern → ℤ → WriteConcern
nodes c w = record c { w = w; enabled_w = true; enabled_w_str = false }

unfoldable pub mode : WriteConcern → List ℕ → WriteConcern
mode c w = record c { w_str = w; enabled_w_str = true; enabled_w = false }

unfoldable pub journal : WriteConcern → Bool → WriteConcern
journal c j = record c { j = j; enabled_j = true }

unfoldable pub fsync : WriteConcern → Bool → WriteConcern
fsync c f = record c { fsync_field = f; enabled_fsync = true }

unfoldable pub timeout : WriteConcern → ℤ → WriteConcern
timeout c t = record c { wtimeout = t; enabled_timeout = true }

unfoldable pub requires_confirmation : WriteConcern → Bool
unfolding int_eq
requires_confirmation c = not c.enabled_w || not (int_eq c.w (pos 0))

-- The elements of `obj()`.
pub data Setting : Type 0 where
  w_number : ℤ → Setting
  w_mode : List ℕ → Setting
  journaled : Bool → Setting
  synced : Bool → Setting
  wait : ℤ → Setting

abbrev when {ℓ} : {A : Type ℓ} → Bool → A → List A
when true a = a ∷ []
when false a = []

abbrev plain_part : Bool → Bool → Bool → Bool → Bool → ℤ → List Setting
plain_part j f t jv fv tv = when j (journaled jv) ++ (when f (synced fv) ++ when t (wait tv))

-- `obj`.
unfoldable pub obj : WriteConcern → List Setting
obj c =
    when c.enabled_w (w_number c.w)
    ++ (when c.enabled_w_str (w_mode c.w_str)
        ++ plain_part c.enabled_j c.enabled_fsync c.enabled_timeout c.j c.fsync_field c.wtimeout)

-- A concern that the constructor and the setters made.
pub data IsBuilt : WriteConcern → Type 0 where
  by_default : IsBuilt default_concern
  by_nodes : {c : WriteConcern} (n : ℤ) → IsBuilt c → IsBuilt (nodes c n)
  by_mode : {c : WriteConcern} (name : List ℕ) → IsBuilt c → IsBuilt (mode c name)
  by_journal : {c : WriteConcern} (b : Bool) → IsBuilt c → IsBuilt (journal c b)
  by_fsync : {c : WriteConcern} (b : Bool) → IsBuilt c → IsBuilt (fsync c b)
  by_timeout : {c : WriteConcern} (t : ℤ) → IsBuilt c → IsBuilt (timeout c t)

-- The values of the `w` elements.
abbrev pub w_values : List Setting → List Setting
w_values [] = []
w_values (w_number n ∷ more) = w_number n ∷ w_values more
w_values (w_mode name ∷ more) = w_mode name ∷ w_values more
w_values (journaled b ∷ more) = w_values more
w_values (synced b ∷ more) = w_values more
w_values (wait t ∷ more) = w_values more

abbrev zero_w : Setting → Bool
zero_w (w_number n) = int_eq n (pos 0)
zero_w (w_mode name) = false
zero_w (journaled b) = false
zero_w (synced b) = false
zero_w (wait t) = false

abbrev pub has_zero_w : List Setting → Bool
has_zero_w [] = false
has_zero_w (s ∷ more) = zero_w s || has_zero_w more

one_kind : {c : WriteConcern} → IsBuilt c → c.enabled_w && c.enabled_w_str ≡ false
unfolding nodes mode journal fsync timeout
one_kind by_default = refl
one_kind (by_nodes n h) = refl
one_kind (by_mode name h) = refl
one_kind (by_journal b h) = one_kind h
one_kind (by_fsync b h) = one_kind h
one_kind (by_timeout t h) = one_kind h

plain_settings :
    (j f t jv fv : Bool) (tv : ℤ)
    → (w_values (plain_part j f t jv fv tv) ≡ []) × (has_zero_w (plain_part j f t jv fv tv) ≡ false)
plain_settings true true true jv fv tv = (refl, refl)
plain_settings true true false jv fv tv = (refl, refl)
plain_settings true false true jv fv tv = (refl, refl)
plain_settings true false false jv fv tv = (refl, refl)
plain_settings false true true jv fv tv = (refl, refl)
plain_settings false true false jv fv tv = (refl, refl)
plain_settings false false true jv fv tv = (refl, refl)
plain_settings false false false jv fv tv = (refl, refl)

settings_lem :
    (w str : Bool) (n : ℤ) (name : List ℕ) (more : List Setting)
    → w && str ≡ false
    → (w_values more ≡ []) × (has_zero_w more ≡ false)
    → (length (w_values (when w (w_number n) ++ (when str (w_mode name) ++ more))) ≤ 1)
      × (not (not w || not (int_eq n (pos 0)))
          ≡ has_zero_w (when w (w_number n) ++ (when str (w_mode name) ++ more)))
settings_lem true true n name more h k = cc
settings_lem true false n name more h (k, l) = (rw k (omega arith), rw l (ground arith))
settings_lem false true n name more h (k, l) = (rw k (omega arith), rw l refl)
settings_lem false false n name more h (k, l) = (rw k (omega arith), rw l refl)

-- For every concern that the constructor and the setters made, the document of it has at most one `w`, and
-- the writes do not require confirmation just if that document has a `w` that is the number 0.
pub obj-IsBuilt :
    (c : WriteConcern)
    → IsBuilt c
    → (length (w_values (obj c)) ≤ 1) × (not (requires_confirmation c) ≡ has_zero_w (obj c))
unfolding obj requires_confirmation
obj-IsBuilt c h =
    settings_lem c.enabled_w c.enabled_w_str c.w c.w_str
      (plain_part c.enabled_j c.enabled_fsync c.enabled_timeout c.j c.fsync_field c.wtimeout)
      (one_kind h)
      (plain_settings c.enabled_j c.enabled_fsync c.enabled_timeout c.j c.fsync_field c.wtimeout)
