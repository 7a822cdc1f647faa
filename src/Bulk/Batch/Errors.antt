-- ===== src/Bulk/Batch/Errors.antt =====
-- How `write` (src/mongo/client/command_writer.cpp, wire_protocol_writer.cpp) ends: the errors in the result,
-- and the fuel.
use mongo_cxx_driver.Base.{
  ℕ, zero, suc, ◌≤◌, ◌≡◌, ◌≢◌, ◌⊎◌, inl, inr, refl, sym, ap, ◌∙◌, Bool, true, false, ◌||◌, ◌&&◌,
  List, [], ◌∷◌, if◌then◌else◌, length, arith,
}
use mongo_cxx_driver.Bulk.Operation.{Operation, WriteOpType, operation_type}
use mongo_cxx_driver.Bulk.Result.{WriteResult, check, has_errors}
use mongo_cxx_driver.Bulk.Batch.{
  Fit, fits, overfull, oversize, Issued, merged, command_failed, bad_index, Writer, Filled, Ending,
  completed, threw_failed, threw_error, threw_oversize, aborted, bad_reply, out_of_fuel, Run, stop,
  behind, last, after_issue, issue_filled, start_batch, write,
}
use mongo_cxx_driver.Bulk.Batch.Runs.{IsBegun, begun, too_big, start-IsBegun}

-- A run of operations on a result: the fuel was enough, and if it completes, it left the result as it was for
-- no operations, or without errors.
pub record IsClean {S : Type 0} (ops : List Operation) (before : WriteResult) (run : Run S)
    : Type 0 where
  pub ends : run.ending ≢ out_of_fuel
  pub clean :
      run.ending ≡ completed
      → ((ops ≡ []) × (run.result ≡ before)) ⊎ (has_errors run.result ≡ false)

check_soft : (result : WriteResult) → check true result ≡ has_errors result
unfolding check has_errors
check_soft result = refl

module _ {S : Type 0} (writer : Writer S) (ordered : Bool) where
  stop-IsClean :
      (batches : List (List Operation)) (ops : List Operation) (before : WriteResult) (state : S)
      (result : WriteResult) (ending : Ending)
      → ending ≢ completed
      → ending ≢ out_of_fuel
      → IsClean ops before (stop writer batches state result ending)
  stop-IsClean batches ops before state result ending h k = record {
    ends = k;
    clean = λ e. elim (h e) [ ];
  }

  behind-IsClean :
      {batch : List Operation} (op : Operation) (ops rest : List Operation)
      (before result : WriteResult) (run : Run S)
      → check (last writer rest) result ≡ false ⊎ (last writer rest ≡ false)
      → IsClean rest result run
      → IsClean (op ∷ ops) before (behind writer batch run)
  behind-IsClean op ops [] before result run (inl h) k = record {
    ends = k.ends;
    clean = λ e. inr (elim (k.clean e) [
      | inl same ↦ ap has_errors same.1 ∙ sym (check_soft result) ∙ h
      | inr none ↦ none
    ]);
  }
  behind-IsClean op ops [] before result run (inr h) k = record { ends = k.ends; clean = λ e. cc }
  behind-IsClean op ops (next ∷ rest) before result run h k = record {
    ends = k.ends;
    clean = λ e. inr (elim (k.clean e) [ inl same ↦ cc | inr none ↦ none ]);
  }

  passed :
      (rest : List Operation) (result : WriteResult)
      → (ordered || last writer rest) && check (last writer rest) result ≡ false
      → check (last writer rest) result ≡ false ⊎ (last writer rest ≡ false)
  passed rest result h = split ordered (last writer rest) (check (last writer rest) result) h
    where
      split : (a b c : Bool) → (a || b) && c ≡ false → (c ≡ false) ⊎ (b ≡ false)
      split true b c h = inl h
      split false true c h = inl h
      split false false c h = inr refl

  after_issue-IsClean :
      (batch : List Operation) (op : Operation) (ops rest : List Operation) (before : WriteResult)
      (next : S → WriteResult → Run S) (issued : Issued S)
      → ((state : S) (result : WriteResult) → IsClean rest result (next state result))
      → IsClean (op ∷ ops) before (after_issue writer ordered batch rest before next issued)
  after_issue-IsClean batch op ops rest before next (command_failed state) h =
      stop-IsClean (batch ∷ []) (op ∷ ops) before state before threw_failed (λ e. cc) (λ e. cc)
  after_issue-IsClean batch op ops rest before next (bad_index state) h =
      stop-IsClean (batch ∷ []) (op ∷ ops) before state before bad_reply (λ e. cc) (λ e. cc)
  after_issue-IsClean batch op ops rest before next (merged state result) h =
      choose ((ordered || last writer rest) && check (last writer rest) result) (passed rest result)
    where
      choose :
          (b : Bool)
          → (b ≡ false → check (last writer rest) result ≡ false ⊎ (last writer rest ≡ false))
          → IsClean (op ∷ ops) before (
              if b
              then stop writer (batch ∷ []) state result threw_error
              else behind writer batch (next state result))
      choose true k =
          stop-IsClean (batch ∷ []) (op ∷ ops) before state result threw_error (λ e. cc) (λ e. cc)
      choose false k =
          behind-IsClean op ops rest before result (next state result) (k refl) (h state result)

  issue_filled-IsClean :
      (op : Operation) (ops : List Operation) (kind : WriteOpType) (state : S)
      (before : WriteResult) (next : List Operation → S → WriteResult → Run S) {f : Filled}
      → IsBegun writer (op ∷ ops) f
      → ((rest : List Operation)
          → length rest ≤ length ops
          → (state : S) (result : WriteResult) → IsClean rest result (next rest state result))
      → IsClean (op ∷ ops) before (issue_filled writer ordered kind state before next f)
  issue_filled-IsClean op ops kind state before next (begun {batch} {rest} good parts shorter) h =
      after_issue-IsClean batch op ops rest before (next rest)
        (writer.issue state kind batch before) (h rest (omega arith))
  issue_filled-IsClean op ops kind state before next too_big h =
      stop-IsClean [] (op ∷ ops) before state before threw_oversize (λ e. cc) (λ e. cc)

  start_batch-IsClean :
      (op : Operation) (ops : List Operation) (fit : Fit) (state : S) (before : WriteResult)
      {run : Run S}
      → (fit ≡ fits → IsClean (op ∷ ops) before run)
      → IsClean (op ∷ ops) before (start_batch writer fit state before run)
  start_batch-IsClean op ops fits state before h = h refl
  start_batch-IsClean op ops overfull state before h =
      stop-IsClean [] (op ∷ ops) before state before aborted (λ e. cc) (λ e. cc)
  start_batch-IsClean op ops oversize state before h =
      stop-IsClean [] (op ∷ ops) before state before threw_oversize (λ e. cc) (λ e. cc)

  -- With at least as much fuel as there are operations, `write` does not run out of it, for every writer and
  -- whatever the server replies. If it completes, its result has no write error and no write concern error,
  -- except that no operations leave the result as it was.
  pub write-IsClean :
      (fuel : ℕ) (ops : List Operation) (state : S) (before : WriteResult)
      → length ops ≤ fuel
      → IsClean ops before (write writer fuel ordered ops state before)
  unfolding write
  write-IsClean fuel [] state before h = record { ends = λ e. cc; clean = λ e. inl (refl, refl) }
  write-IsClean zero (op ∷ ops) state before h = elim (h) [ ]
  write-IsClean (suc fuel) (op ∷ ops) state before h =
      start_batch-IsClean op ops (writer.fit writer.empty_length op) state before (λ fit.
        issue_filled-IsClean op ops (operation_type op) state before
          (λ rest. write writer fuel ordered rest) (start-IsBegun writer ordered op ops fit)
          (λ rest shorter s r. write-IsClean fuel rest s r (omega arith)))
