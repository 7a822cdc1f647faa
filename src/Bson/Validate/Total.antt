-- ===== src/Bson/Validate/Total.antt =====
-- The validator runs to an answer on every input, and its own loads are inside the caller's memory.
use mongo_cxx_driver.Bson.Validate.{Outcome, ok, err, fault, out_of_fuel}
use mongo_cxx_driver.Bson.Validate.Machine.{Machine}

abbrev pub Answered {ℓ} : {A : Type ℓ} → Outcome A → Type 0
Answered (ok a) = Unit
Answered (err e) = Unit
Answered fault = ⊥
Answered out_of_fuel = ⊥
