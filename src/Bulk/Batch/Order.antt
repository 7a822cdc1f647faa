-- ===== src/Bulk/Batch/Order.antt =====
-- The batches of `write` (src/mongo/client/command_writer.cpp, wire_protocol_writer.cpp) as parts of the
-- operations that it was given.
use mongo_cxx_driver.Base.{
  ℕ, suc, ◌+◌, ◌≤◌, ◌≡◌, refl, ap, Bool, true, false, ◌||◌, not, List, [], ◌∷◌, ◌++◌, if◌then◌else◌,
  leb, length, arith,
}
use mongo_cxx_driver.Bulk.Operation.{
  Operation, WriteOpType, write_insert, write_update, write_delete, operation_type,
}
use mongo_cxx_driver.Bulk.Batch.{
  Fit, fits, overfull, oversize, Writer, same_type, fill, Filled, filled, too_large, join,
}

abbrev pub concat {ℓ} : {A : Type ℓ} → List (List A) → List A
concat [] = []
concat (xs ∷ xss) = xs ++ concat xss

abbrev pub OfType : WriteOpType → List Operation → Type 0
OfType kind [] = Unit {0}
OfType kind (op ∷ ops) = (operation_type op ≡ kind) × OfType kind ops

same_type-≡ : (a b : WriteOpType) → same_type a b ≡ true → a ≡ b
unfolding same_type
same_type-≡ write_insert write_insert h = refl
same_type-≡ write_update write_update h = refl
same_type-≡ write_delete write_delete h = refl
same_type-≡ write_insert write_update h = cc
same_type-≡ write_insert write_delete h = cc
same_type-≡ write_update write_insert h = cc
same_type-≡ write_update write_delete h = cc
same_type-≡ write_delete write_insert h = cc
same_type-≡ write_delete write_update h = cc

-- Each of these operations fits into the builder behind those before it.
abbrev pub AllFit : {S : Type 0} → Writer S → ℕ → ℕ → List Operation → Type 0
AllFit writer count len [] = Unit {0}
AllFit writer count len (op ∷ ops) =
    (writer.fit len op ≡ fits) × AllFit writer (count + 1) (writer.append count len op) ops

-- A batch behind `count` operations: it is the front of the operations, of one type, no larger than any bound
-- of `count` and the writer's limit, and its operations fit.
pub data IsFilled {S : Type 0} (writer : Writer S) (kind : WriteOpType) (count len : ℕ)
    (ops : List Operation) : Filled → Type 0 where
  taken :
      {batch rest : List Operation}
      → batch ++ rest ≡ ops
      → OfType kind batch
      → ((k : ℕ) → count ≤ k → writer.max_batch_size ≤ k → count + length batch ≤ k)
      → AllFit writer count len batch
      → IsFilled writer kind count len ops (filled batch rest)
  refused : IsFilled writer kind count len ops too_large

module _ {S : Type 0} (writer : Writer S) where
  nothing-IsFilled :
      {kind : WriteOpType} {count len : ℕ} (ops : List Operation)
      → IsFilled writer kind count len ops (filled [] ops)
  nothing-IsFilled ops = taken refl tt (λ k h l. omega arith) tt

  join-IsFilled :
      {kind : WriteOpType} {count len : ℕ} (op : Operation) (ops : List Operation) {f : Filled}
      → operation_type op ≡ kind
      → suc count ≤ writer.max_batch_size
      → writer.fit len op ≡ fits
      → IsFilled writer kind (count + 1) (writer.append count len op) ops f
      → IsFilled writer kind count len (op ∷ ops) (join op f)
  join-IsFilled op ops same room fit (taken parts types size all) =
      taken (ap (λ more. op ∷ more) parts) (same, types)
        (λ k h l. let bound = size k (omega arith) l in omega arith) (fit, all)
  join-IsFilled op ops same room fit refused = refused

  pub fill-IsFilled :
      (kind : WriteOpType) (count len : ℕ) (ops : List Operation)
      → IsFilled writer kind count len ops (fill writer kind count len ops)
  unfolding fill
  fill-IsFilled kind count len [] = nothing-IsFilled []
  fill-IsFilled kind count len (next ∷ rest) =
      next-IsFilled (writer.batchable kind) (same_type (operation_type next) kind) refl
        (leb writer.max_batch_size count) refl (writer.fit len next) refl
        (fill-IsFilled kind (count + 1) (writer.append count len next) rest)
    where
      next-IsFilled :
          (b same : Bool)
          → same_type (operation_type next) kind ≡ same
          → (full : Bool) → leb writer.max_batch_size count ≡ full
          → (fit : Fit) → writer.fit len next ≡ fit
          → {more : Filled}
          → IsFilled writer kind (count + 1) (writer.append count len next) rest more
          → IsFilled writer kind count len (next ∷ rest) (
              if not b || (not same || full) then filled [] (next ∷ rest) else (elim fit [
                | oversize ↦ too_large
                | overfull ↦ filled [] (next ∷ rest)
                | fits ↦ join next more
              ]))
      next-IsFilled false same e full l fit f h = nothing-IsFilled (next ∷ rest)
      next-IsFilled true false e full l fit f h = nothing-IsFilled (next ∷ rest)
      next-IsFilled true true e true l fit f h = nothing-IsFilled (next ∷ rest)
      next-IsFilled true true e false l oversize f h = refused
      next-IsFilled true true e false l overfull f h = nothing-IsFilled (next ∷ rest)
      next-IsFilled true true e false l fits f h =
          join-IsFilled next rest (same_type-≡ (operation_type next) kind e) (ground arith) f h
