-- ===== src/Bson/Validate/Turns.antt =====
-- The turns of the validator's loop that open an object or read an element: each reads on, inside the
-- caller's memory, and leaves a frame where the next turn needs one.
use mongo_cxx_driver.Base.{
  ℕ, zero, suc, ◌+◌, ◌-◌, ◌*◌, ◌≤◌, ◌<◌, ◌≡◌, refl, sym, ap, ◌∙◌, ◌≢◌, ◌⊎◌, inl, inr, Bool, true,
  false, not, ◌&&◌, some, List, [], ◌∷◌, arith, length, drop, if◌then◌else◌,
}
use mongo_cxx_driver.Bson.Validate.{
  Buffer, Message, ok, required, read_int, memchr, read_utf8_string, size_larger_than_buffer,
  invalid_code_w_scope_size,
}
use mongo_cxx_driver.Bson.Validate.Reads.{
  Safe, Safe-bind, Safe-weaken, Safe-required, Safe-if, Fits, Advanced, Advanced-Fits, ReadBy,
  read_int-Safe, read_utf8_string-Safe,
}
use mongo_cxx_driver.Bson.Validate.Element.{
  State, begin_obj, within_obj, end_obj, end_code_w_scope, done, validate_element_info,
}
use mongo_cxx_driver.Bson.Validate.Progress.{IsNamed, ElementRead, validate_element_info-Safe}
use mongo_cxx_driver.Bson.Validate.Machine.{
  Frame, Machine, push_frame, is_id_name, note_id_elem, mark_id_elem, within_object, begin_code,
  begin_object, at_top_level, is_none, is_end_obj,
}

-- `strcmp` stops inside the buffer when the name is terminated there.
is_id_name-Safe :
    (xs : List ℕ) (n k : ℕ) → memchr xs n ≡ ok (some k) → Safe (λ _. Unit {0}) (is_id_name xs)
unfolding memchr is_id_name
is_id_name-Safe [] zero k h = cc
is_id_name-Safe [] (suc n) k h = cc
is_id_name-Safe (a ∷ []) zero k h = cc
is_id_name-Safe (a ∷ []) (suc zero) k h = ground arith
is_id_name-Safe (a ∷ []) (suc (suc n)) k h = ground arith
is_id_name-Safe (a ∷ b ∷ []) zero k h = cc
is_id_name-Safe (a ∷ b ∷ []) (suc zero) k h = ground arith
is_id_name-Safe (a ∷ b ∷ []) (suc (suc zero)) k h = ground arith
is_id_name-Safe (a ∷ b ∷ []) (suc (suc (suc n))) k h = ground arith
is_id_name-Safe (a ∷ b ∷ c ∷ []) zero k h = cc
is_id_name-Safe (a ∷ b ∷ c ∷ []) (suc zero) k h = ground arith
is_id_name-Safe (a ∷ b ∷ c ∷ []) (suc (suc zero)) k h = ground arith
is_id_name-Safe (a ∷ b ∷ c ∷ []) (suc (suc (suc zero))) k h = ground arith
is_id_name-Safe (a ∷ b ∷ c ∷ []) (suc (suc (suc (suc n)))) k h = ground arith
is_id_name-Safe (a ∷ b ∷ c ∷ d ∷ r) n k h = tt

-- States in which the code uses `curr` have a frame.
abbrev pub HasFrame : State → List Frame → Type 0
HasFrame begin_obj fs = Unit
HasFrame done fs = Unit
HasFrame _ [] = ⊥
HasFrame _ (f ∷ fs) = Unit

pub record Good (m : Machine) : Type 0 where
  pub fits : Fits 12 m.buffer
  pub framed : HasFrame m.state m.frames

-- Each turn makes this smaller.
abbrev pub todo : Machine → ℕ
todo m = 2 * (m.buffer.max_length - m.buffer.position) + length m.frames

abbrev pub Turned : Machine → Machine → Type 0
Turned m m1 = Good m1 × (todo m1 < todo m)

abbrev Pushed : Machine → Machine → Type 0
Pushed m m1 =
    Advanced 0 m.buffer m1.buffer
    × (m1.buffer.position ≡ m.buffer.position + 4)
    × (length m1.frames ≡ suc (length m.frames))

slacken : (b c : Buffer) → Advanced 0 b c → Advanced 12 b c
slacken b c g = record {
  bytes = g.bytes;
  max_length = g.max_length;
  id_elem = g.id_elem;
  forward = g.forward;
  inside = omega (arith, g.inside);
}

push_frame-Safe :
    (flag : Bool) (msg : Message) (m : Machine)
    → Fits 12 m.buffer
    → Safe (Pushed m) (push_frame flag msg m)
unfolding push_frame
push_frame-Safe flag msg m f =
    Safe-bind (λ r. ReadBy 4 0 m.buffer (some r)) _ (required (read_int m.buffer) _) _
      (Safe-required (λ r. ReadBy 4 0 m.buffer (some r)) (ReadBy 4 0 m.buffer) (read_int m.buffer) _
        (read_int-Safe m.buffer {k = 12} (omega arith) f) (λ r h. h))
      λ r h. (h.0, h.1, refl)

-- What `note_id_elem` and `mark_id_elem` leave alone.
pub record SameRun (m m1 : Machine) : Type 0 where
  pub bytes : m1.buffer.bytes ≡ m.buffer.bytes
  pub position : m1.buffer.position ≡ m.buffer.position
  pub max_length : m1.buffer.max_length ≡ m.buffer.max_length
  pub frames : m1.frames ≡ m.frames

note_id_elem-SameRun : (m : Machine) → SameRun m (note_id_elem m)
unfolding note_id_elem
note_id_elem-SameRun m = ground arith

SameRun-refl : (m : Machine) → SameRun m m
SameRun-refl m = record { bytes = refl; position = refl; max_length = refl; frames = refl }

marked-SameRun :
    (p : ℕ) (m : Machine) (found : Bool)
    → Unit {0}
    → SameRun m (if found then record m { id_elem_start_pos = p } else m)
marked-SameRun p m true h = record {
  bytes = refl;
  position = refl;
  max_length = refl;
  frames = refl;
}
marked-SameRun p m false h = SameRun-refl m

mark_id_elem-Safe :
    (b : Buffer) (next : State) (m : Machine)
    → b.bytes ≡ m.buffer.bytes
    → (next ≡ end_obj) ⊎ IsNamed b
    → Safe (SameRun m) (mark_id_elem b.position next m)
unfolding mark_id_elem
mark_id_elem-Safe b next m h (inl e) = rw e (SameRun-refl m)
mark_id_elem-Safe b next m h (inr (n, k, w)) =
    Safe-if (SameRun m) (not (is_end_obj next) && (is_none m.id_elem && at_top_level m.frames)) _
      (ok m)
      (Safe-bind (λ _. Unit {0}) (SameRun m) (is_id_name (drop (b.position + 1) m.buffer.bytes)) _
        (is_id_name-Safe (drop (b.position + 1) m.buffer.bytes) n k (rw h at w))
        (marked-SameRun b.position m))
      (SameRun-refl m)

abbrev pub Within : Machine → Machine → Type 0
Within m m1 =
    Good m1
    × (2 * (m1.buffer.max_length - m1.buffer.position) + 2
        ≤ 2 * (m.buffer.max_length - m.buffer.position))
    × (length m1.frames ≡ length m.frames)

HasFrame-after :
    (s : State) (fs : List Frame) → s ≢ done → s ≢ end_code_w_scope → 0 < length fs → HasFrame s fs
HasFrame-after s [] a b h = absurd (omega arith)
HasFrame-after begin_obj (f ∷ fs) a b h = tt
HasFrame-after done (f ∷ fs) a b h = tt
HasFrame-after _ (f ∷ fs) a b h = tt

Within-done :
    (m m1 m3 : Machine) (r : State × Buffer)
    → Fits 12 m.buffer
    → 0 < length m.frames
    → SameRun m m1
    → ElementRead m1.buffer r
    → SameRun (record m1 { buffer = r.1 }) m3
    → Within m (record m3 { state = r.0 })
Within-done m m1 m3 r h e s1 h1 s3 =
    let count = ap length (s3.frames ∙ s1.frames) in
    (
      record {
        fits = record {
          owned =
              rw (s3.bytes, s3.max_length, h1.0.bytes, h1.0.max_length, s1.bytes, s1.max_length)
                h.owned;
          small = rw (s3.max_length, h1.0.max_length, s1.max_length) h.small;
          inside = omega (arith, s3.position, s3.max_length, h1.0.inside, h1.0.max_length);
        };
        framed = HasFrame-after r.0 m3.frames h1.4 h1.5 (omega (arith, count));
      },
      omega (
        arith, s3.position, s3.max_length, h1.0.max_length, s1.position, s1.max_length, h1.1, h1.2,
      ),
      count,
    )

pub within_object-Safe :
    (m : Machine) → Fits 12 m.buffer → 0 < length m.frames → Safe (Within m) (within_object m)
unfolding within_object
within_object-Safe m h e =
    let m1 = note_id_elem m in
    let s1 = note_id_elem-SameRun m in
    let f1 : Fits 12 m1.buffer = record {
      owned = rw (s1.bytes, s1.max_length) h.owned;
      small = rw s1.max_length h.small;
      inside = rw (s1.position, s1.max_length) h.inside;
    } in
    Safe-bind (ElementRead m1.buffer) (Within m)
      (validate_element_info within_obj m1.id_elem m1.buffer) _
      (validate_element_info-Safe m1.id_elem m1.buffer {k = 12} (omega arith) f1)
      λ r h1.
        let m2 = record m1 { buffer = r.1 } in
        Safe-bind (SameRun m2) (Within m) (mark_id_elem m1.buffer.position r.0 m2) _
          (mark_id_elem-Safe m1.buffer r.0 m2 (sym h1.0.bytes) h1.3)
          λ m3 s3. Within-done m m1 m3 r h e s1 h1 s3

pub begin_object-Safe : (m : Machine) → Fits 12 m.buffer → Safe (Turned m) (begin_object m)
unfolding begin_object
begin_object-Safe m f =
    Safe-bind (Pushed m) (Turned m) (push_frame false size_larger_than_buffer m) _
      (push_frame-Safe false size_larger_than_buffer m f)
      λ m1 p.
        Safe-weaken (Within m1) (Turned m) (within_object m1)
          (λ m2 w. (w.0, omega (arith, w.1, w.2, p.0.max_length, p.0.inside, p.1, p.2)))
          (within_object-Safe m1
            (Advanced-Fits 12 12 m.buffer m1.buffer f (slacken m.buffer m1.buffer p.0))
            (omega (arith, p.2)))

pub begin_code-Safe : (m : Machine) → Fits 12 m.buffer → Safe (Turned m) (begin_code m)
unfolding begin_code
begin_code-Safe m f =
    Safe-bind (Pushed m) (Turned m) (push_frame true invalid_code_w_scope_size m) _
      (push_frame-Safe true invalid_code_w_scope_size m f)
      λ m1 p.
        let f1 = Advanced-Fits 0 12 m.buffer m1.buffer f p.0 in
        Safe-bind (Advanced 0 m1.buffer) (Turned m) (read_utf8_string m1.buffer) _
          (read_utf8_string-Safe m1.buffer f1)
          λ b a. (
            record {
              fits = Advanced-Fits 12 0 m1.buffer b f1 (slacken m1.buffer b a);
              framed = tt;
            },
            omega (arith, p.0.max_length, p.0.inside, p.1, p.2, a.forward, a.max_length, a.inside),
          )
