-- ===== src/Bulk/Batch.antt =====
-- The loop that CommandWriter::write (src/mongo/client/command_writer.cpp) and WireProtocolWriter::write
-- (src/mongo/client/wire_protocol_writer.cpp) share. What the two do differently is a `Writer`. The
-- operations of a bulk are distinct objects, so an operation is the last one if none follows it.
pub mod Order
pub mod Runs
pub mod Errors
use mongo_cxx_driver.Base.{
  ℕ, zero, suc, ◌+◌, Bool, true, false, ◌||◌, ◌&&◌, not, List, [], ◌∷◌, ◌++◌, Option, none, some,
  if◌then◌else◌, leb, length,
}
use mongo_cxx_driver.Bulk.Operation.{
  Operation, WriteOpType, write_insert, write_update, write_delete, operation_type,
}
use mongo_cxx_driver.Bulk.Result.{WriteResult, check}

-- What a call of `_fits` says; `oversize` is its assertion.
pub data Fit : Type 0 where
  fits overfull oversize : Fit

-- How issuing a batch ends, with the state of the connection: the result with the reply merged in, the
-- exception for a command that failed, or a reply that names an operation that the batch does not have.
pub data Issued (S : Type 0) : Type 0 where
  merged : S → WriteResult → Issued S
  command_failed : S → Issued S
  bad_index : S → Issued S

-- `fit` and `append` take the length of the builder, `append` also the place in the batch.
pub record Writer (S : Type 0) : Type 0 where
  pub empty_length : ℕ
  pub start : ℕ → Operation → ℕ
  pub append : ℕ → ℕ → Operation → ℕ
  pub fit : ℕ → Operation → Fit
  pub batchable : WriteOpType → Bool
  pub max_batch_size : ℕ
  pub issue : S → WriteOpType → List Operation → WriteResult → Issued S

unfoldable pub same_type : WriteOpType → WriteOpType → Bool
same_type write_insert write_insert = true
same_type write_update write_update = true
same_type write_delete write_delete = true
same_type _ _ = false

-- The operations that join a batch, and those that are left; or the assertion of `_fits`.
pub data Filled : Type 0 where
  filled : List Operation → List Operation → Filled
  too_large : Filled

abbrev pub join : Operation → Filled → Filled
join op (filled batch rest) = filled (op ∷ batch) rest
join op too_large = too_large

-- How a call of `write` ends.
pub data Ending : Type 0 where
  completed threw_failed threw_error threw_oversize aborted bad_reply out_of_fuel : Ending

-- A run of `write`: the batches that were issued, in order, and what is left.
pub record Run (S : Type 0) : Type 0 where
  pub batches : List (List Operation)
  pub state : S
  pub result : WriteResult
  pub ending : Ending

module _ {S : Type 0} (writer : Writer S) where
  -- The inner loop behind an operation: `count` are in the batch, `len` is the length of the builder.
  unfoldable pub fill : WriteOpType → ℕ → ℕ → List Operation → Filled
  unfolding same_type operation_type
  fill kind count len [] = filled [] []
  fill kind count len (next ∷ rest) =
      let more = fill kind (count + 1) (writer.append count len next) rest in
      if not (writer.batchable kind)
        || (not (same_type (operation_type next) kind) || leb writer.max_batch_size count)
      then filled [] (next ∷ rest)
      else (elim (writer.fit len next) [
        | oversize ↦ too_large
        | overfull ↦ filled [] (next ∷ rest)
        | fits ↦ join next more
      ])

  -- The batch that starts with this operation.
  abbrev pub batch_of : Operation → List Operation → Filled
  batch_of op rest =
      let len = writer.append 0 (writer.start writer.empty_length op) op in
      join op (fill (operation_type op) 1 len rest)

  abbrev pub stop : List (List Operation) → S → WriteResult → Ending → Run S
  stop batches state result ending = record {
    batches = batches;
    state = state;
    result = result;
    ending = ending;
  }

  abbrev pub behind : List Operation → Run S → Run S
  behind batch run = record run { batches = batch ∷ run.batches }

  abbrev pub last : List Operation → Bool
  last [] = true
  last (op ∷ ops) = false

  -- Behind a batch that was issued: the test for errors, or the next batches.
  abbrev pub after_issue :
      Bool
      → List Operation
      → List Operation
      → WriteResult
      → (S → WriteResult → Run S)
      → Issued S
      → Run S
  after_issue ordered batch rest before next (command_failed state) =
      stop (batch ∷ []) state before threw_failed
  after_issue ordered batch rest before next (bad_index state) =
      stop (batch ∷ []) state before bad_reply
  after_issue ordered batch rest before next (merged state result) =
      if (ordered || last rest) && check (last rest) result
      then stop (batch ∷ []) state result threw_error
      else behind batch (next state result)

  abbrev pub issue_filled :
      Bool
      → WriteOpType
      → S
      → WriteResult
      → (List Operation → S → WriteResult → Run S)
      → Filled
      → Run S
  issue_filled ordered kind state result next too_large = stop [] state result threw_oversize
  issue_filled ordered kind state result next (filled batch rest) =
      after_issue ordered batch rest result (next rest) (writer.issue state kind batch result)

  -- `invariant(_fits(...))` on the first operation, which aborts.
  abbrev pub start_batch : Fit → S → WriteResult → Run S → Run S
  start_batch fits state result run = run
  start_batch overfull state result run = stop [] state result aborted
  start_batch oversize state result run = stop [] state result threw_oversize

  -- `write`, with fuel for the batches.
  unfoldable pub write : ℕ → Bool → List Operation → S → WriteResult → Run S
  unfolding fill check
  write fuel ordered [] state result = stop [] state result completed
  write zero ordered (op ∷ ops) state result = stop [] state result out_of_fuel
  write (suc fuel) ordered (op ∷ ops) state result =
      start_batch (writer.fit writer.empty_length op) state result (
        issue_filled ordered (operation_type op) state result (λ rest. write fuel ordered rest)
          (batch_of op ops))
