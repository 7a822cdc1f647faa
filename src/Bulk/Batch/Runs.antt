-- ===== src/Bulk/Batch/Runs.antt =====
-- Whole runs of `write` (src/mongo/client/command_writer.cpp, wire_protocol_writer.cpp): which batches it
-- issues, and how it ends.
use mongo_cxx_driver.Base.{
  ℕ, zero, suc, ◌≤◌, ◌<◌, ◌≡◌, ◌≢◌, ◌⊎◌, inl, inr, refl, ap, ◌∙◌, Bool, true, false, ◌||◌, ◌&&◌,
  List, [], ◌∷◌, ◌++◌, if◌then◌else◌, length, arith, append_assoc,
}
use mongo_cxx_driver.Bulk.Operation.{Operation, WriteOpType, operation_type}
use mongo_cxx_driver.Bulk.Result.{WriteResult, check}
use mongo_cxx_driver.Bulk.Batch.{
  Fit, fits, overfull, oversize, Issued, merged, command_failed, bad_index, Writer, Filled, filled,
  too_large, join, Ending, completed, threw_failed, threw_error, threw_oversize, aborted, bad_reply,
  out_of_fuel, Run, batch_of, stop, behind, last, after_issue, issue_filled, start_batch, write,
}
use mongo_cxx_driver.Bulk.Batch.Order.{
  concat, OfType, AllFit, IsFilled, taken, refused, fill-IsFilled,
}

-- The operations of a batch fit into its builder one behind the other.
abbrev pub AllFitted : {S : Type 0} → Writer S → List Operation → Type 0
AllFitted writer [] = Unit {0}
AllFitted writer (op ∷ ops) =
    (writer.fit writer.empty_length op ≡ fits)
    × AllFit writer 1 (writer.append 0 (writer.start writer.empty_length op) op) ops

-- A batch is not empty, of one type, within the limit, as far as one operation is, and fits.
pub record IsBatch {S : Type 0} (writer : Writer S) (batch : List Operation) : Type 0 where
  pub kind : WriteOpType
  pub of_type : OfType kind batch
  pub some_operation : 1 ≤ length batch
  pub size : (length batch ≤ 1) ⊎ (length batch ≤ writer.max_batch_size)
  pub fitted : AllFitted writer batch

abbrev pub AllBatches : {S : Type 0} → Writer S → List (List Operation) → Type 0
AllBatches writer [] = Unit {0}
AllBatches writer (batch ∷ batches) = IsBatch writer batch × AllBatches writer batches

-- The batches in their order are the front of the operations; all of them if the run completes.
pub record IsOrdered {S : Type 0} (writer : Writer S) (ops : List Operation) (run : Run S)
    : Type 0 where
  pub left : List Operation
  pub parts : concat run.batches ++ left ≡ ops
  pub all_done : run.ending ≡ completed → left ≡ []
  pub every : AllBatches writer run.batches

-- The first batch of these operations.
pub data IsBegun {S : Type 0} (writer : Writer S) (ops : List Operation) : Filled → Type 0 where
  begun :
      {batch rest : List Operation}
      → IsBatch writer batch
      → batch ++ rest ≡ ops
      → length rest < length ops
      → IsBegun writer ops (filled batch rest)
  too_big : IsBegun writer ops too_large

size_of : (n limit : ℕ) → ((k : ℕ) → 1 ≤ k → limit ≤ k → n ≤ k) → (n ≤ 1) ⊎ (n ≤ limit)
size_of n zero h = inl (h 1 (omega arith) (omega arith))
size_of n (suc l) h = inr (h (suc l) (omega arith) (omega arith))

length-rest : (batch rest : List Operation) → length rest ≤ length (batch ++ rest)
length-rest [] rest = omega arith
length-rest (op ∷ batch) rest = let shorter = length-rest batch rest in omega arith

join-IsBegun :
    {S : Type 0} (writer : Writer S) (op : Operation) (ops : List Operation) {f : Filled}
    → writer.fit writer.empty_length op ≡ fits
    → IsFilled writer
        (operation_type op)
        1
        (writer.append 0 (writer.start writer.empty_length op) op)
        ops
        f
    → IsBegun writer (op ∷ ops) (join op f)
join-IsBegun writer op ops fit (taken {batch} {rest} parts types size all) =
    let shorter = length-rest batch rest in
    let whole = ap length parts in
    begun
      record {
        kind = operation_type op;
        of_type = (refl, types);
        some_operation = omega arith;
        size =
            size_of (suc (length batch)) writer.max_batch_size
              (λ k h l. let bound = size k h l in omega arith);
        fitted = (fit, all);
      }
      (ap (λ more. op ∷ more) parts) (omega arith)
join-IsBegun writer op ops fit refused = too_big

none_left :
    (batch rest ops : List Operation) → batch ++ rest ≡ ops → concat (batch ∷ []) ++ rest ≡ ops
none_left batch rest ops h = append_assoc batch [] rest ∙ h

module _ {S : Type 0} (writer : Writer S) (ordered : Bool) where
  pub start-IsBegun :
      (op : Operation) (ops : List Operation)
      → writer.fit writer.empty_length op ≡ fits
      → IsBegun writer (op ∷ ops) (batch_of writer op ops)
  start-IsBegun op ops fit =
      join-IsBegun writer op ops fit (fill-IsFilled writer (operation_type op) 1 _ ops)

  -- A run that stops without a batch, and behind one.
  stopped-IsOrdered :
      (ops : List Operation) (state : S) (result : WriteResult) (ending : Ending)
      → ending ≢ completed
      → IsOrdered writer ops (stop writer [] state result ending)
  stopped-IsOrdered ops state result ending differs = record {
    left = ops;
    parts = refl;
    all_done = λ e. elim (differs e) [ ];
    every = tt;
  }

  one-IsOrdered :
      {batch : List Operation} (rest ops : List Operation) (state : S) (result : WriteResult)
      (ending : Ending)
      → ending ≢ completed
      → IsBatch writer batch
      → batch ++ rest ≡ ops
      → IsOrdered writer ops (stop writer (batch ∷ []) state result ending)
  one-IsOrdered {batch} rest ops state result ending differs good parts = record {
    left = rest;
    parts = none_left batch rest ops parts;
    all_done = λ e. elim (differs e) [ ];
    every = (good, tt);
  }

  behind-IsOrdered :
      {batch : List Operation} (rest ops : List Operation) {run : Run S}
      → IsBatch writer batch
      → batch ++ rest ≡ ops
      → IsOrdered writer rest run
      → IsOrdered writer ops (behind writer batch run)
  behind-IsOrdered {batch} rest ops {run} good parts h = record {
    left = h.left;
    parts =
        append_assoc batch (concat run.batches) h.left ∙ ap (λ more. batch ++ more) h.parts ∙ parts;
    all_done = h.all_done;
    every = (good, h.every);
  }

  after_issue-IsOrdered :
      {batch : List Operation} (rest ops : List Operation) (before : WriteResult)
      (next : S → WriteResult → Run S) (issued : Issued S)
      → IsBatch writer batch
      → batch ++ rest ≡ ops
      → ((state : S) (result : WriteResult) → IsOrdered writer rest (next state result))
      → IsOrdered writer ops (after_issue writer ordered batch rest before next issued)
  after_issue-IsOrdered rest ops before next (command_failed state) good parts h =
      one-IsOrdered rest ops state before threw_failed (λ e. cc) good parts
  after_issue-IsOrdered rest ops before next (bad_index state) good parts h =
      one-IsOrdered rest ops state before bad_reply (λ e. cc) good parts
  after_issue-IsOrdered {batch} rest ops before next (merged state result) good parts h =
      choose ((ordered || last writer rest) && check (last writer rest) result)
    where
      choose :
          (b : Bool)
          → IsOrdered writer ops (
              if b
              then stop writer (batch ∷ []) state result threw_error
              else behind writer batch (next state result))
      choose true = one-IsOrdered rest ops state result threw_error (λ e. cc) good parts
      choose false = behind-IsOrdered rest ops good parts (h state result)

  issue_filled-IsOrdered :
      (ops : List Operation) (kind : WriteOpType) (state : S) (result : WriteResult)
      (next : List Operation → S → WriteResult → Run S) {f : Filled}
      → IsBegun writer ops f
      → ((rest : List Operation) (state : S) (result : WriteResult)
          → IsOrdered writer rest (next rest state result))
      → IsOrdered writer ops (issue_filled writer ordered kind state result next f)
  issue_filled-IsOrdered ops kind state result next (begun {batch} {rest} good parts shorter) h =
      after_issue-IsOrdered rest ops result (next rest) (writer.issue state kind batch result) good
        parts (h rest)
  issue_filled-IsOrdered ops kind state result next too_big h =
      stopped-IsOrdered ops state result threw_oversize (λ e. cc)

  start_batch-IsOrdered :
      (ops : List Operation) (fit : Fit) (state : S) (result : WriteResult) {run : Run S}
      → (fit ≡ fits → IsOrdered writer ops run)
      → IsOrdered writer ops (start_batch writer fit state result run)
  start_batch-IsOrdered ops fits state result h = h refl
  start_batch-IsOrdered ops overfull state result h =
      stopped-IsOrdered ops state result aborted (λ e. cc)
  start_batch-IsOrdered ops oversize state result h =
      stopped-IsOrdered ops state result threw_oversize (λ e. cc)

  -- For every writer, connection and fuel: the issued batches, in their order, are the front of the operations
  -- that `write` was given, and all of them if it completes; each is not empty, has one type, has one operation
  -- or at most the writer's limit of them, and each of its operations was found to fit behind those before it.
  pub write-IsOrdered :
      (fuel : ℕ) (ops : List Operation) (state : S) (result : WriteResult)
      → IsOrdered writer ops (write writer fuel ordered ops state result)
  unfolding write
  write-IsOrdered fuel [] state result = record {
    left = [];
    parts = refl;
    all_done = λ e. refl;
    every = tt;
  }
  write-IsOrdered zero (op ∷ ops) state result =
      stopped-IsOrdered (op ∷ ops) state result out_of_fuel (λ e. cc)
  write-IsOrdered (suc fuel) (op ∷ ops) state result =
      start_batch-IsOrdered (op ∷ ops) (writer.fit writer.empty_length op) state result (λ fit.
        issue_filled-IsOrdered (op ∷ ops) (operation_type op) state result
          (λ rest. write writer fuel ordered rest) (start-IsBegun op ops fit)
          (λ rest s r. write-IsOrdered fuel rest s r))
