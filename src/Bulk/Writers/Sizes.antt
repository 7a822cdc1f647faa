-- ===== src/Bulk/Writers/Sizes.antt =====
-- The size of the array that CommandWriter (src/mongo/client/command_writer.cpp) sends.
use mongo_cxx_driver.Base.{
  ℕ, zero, suc, ◌+◌, ◌/◌, ◌≤◌, ◌≡◌, inl, inr, Bool, List, [], ◌∷◌, length, arith,
}
use mongo_cxx_driver.Bulk.Operation.{
  Operation, Body, insert, update, delete, incremental_size, document_size, digits_in,
  append_to_command,
}
use mongo_cxx_driver.Bulk.Concern.{WriteConcern}
use mongo_cxx_driver.Bulk.Batch.{fits, write}
use mongo_cxx_driver.Bulk.Result.{WriteResult}
use mongo_cxx_driver.Bulk.Batch.Order.{AllFit}
use mongo_cxx_driver.Bulk.Batch.Runs.{IsBatch, AllBatches, write-IsOrdered}
use mongo_cxx_driver.Bulk.Writers.{Client, empty_array, k_overhead, command_fits, command_writer}

-- The length of the builder behind these operations.
unfoldable pub array_length : ℕ → ℕ → List Operation → ℕ
unfolding append_to_command
array_length index len [] = len
array_length index len (op ∷ ops) = array_length (index + 1) (append_to_command index len op) ops

document_size_lem : (op : Operation) → document_size op ≤ incremental_size op + 28
unfolding document_size incremental_size
document_size_lem op = go op.body
  where
    go :
        (b : Body)
        → document_size record { bulk_index = 0; body = b }
          ≤ incremental_size record { bulk_index = 0; body = b } + 28
    go (insert doc) = omega arith
    go (update selector doc multi upsert) = omega arith
    go (delete selector just_one) = omega arith

digits_in_lem : (fuel n : ℕ) → digits_in fuel n ≤ n / 10 + 1
unfolding digits_in
digits_in_lem zero n = omega arith
digits_in_lem (suc fuel) n = let shorter = digits_in_lem fuel (n / 10) in ground arith

command_fits_lem :
    (max_size len : ℕ) (op : Operation)
    → command_fits max_size len op ≡ fits
    → len + incremental_size op + k_overhead ≤ max_size
unfolding command_fits
command_fits_lem max_size len op h = ground arith

-- An operation that fits leaves room for the element around it.
append_lem :
    (max_size index len : ℕ) (op : Operation)
    → index ≤ 80000
    → command_fits max_size len op ≡ fits
    → append_to_command index len op ≤ max_size
unfolding append_to_command
append_lem max_size index len op h fit =
    let room = command_fits_lem max_size len op fit in
    let size = document_size_lem op in let digits = digits_in_lem index index in omega arith

module _ {S : Type 0} (client : Client S) (ns : List ℕ) (ordered : Bool)
    (concern : WriteConcern) where
  array_length-AllFit :
      (count len : ℕ) (ops : List Operation)
      → count + length ops ≤ 80000
      → len ≤ client.max_bson_object_size
      → AllFit (command_writer client ns ordered concern) count len ops
      → array_length count len ops ≤ client.max_bson_object_size
  unfolding array_length command_writer
  array_length-AllFit count len [] h l fit = l
  array_length-AllFit count len (op ∷ ops) h l fit =
      array_length-AllFit (count + 1) (append_to_command count len op) ops (omega arith)
        (append_lem client.max_bson_object_size count len op (omega arith) fit.0) fit.1

  array_length-IsBatch :
      (batch : List Operation)
      → client.max_write_batch_size ≤ 80000
      → IsBatch (command_writer client ns ordered concern) batch
      → array_length 0 empty_array batch ≤ client.max_bson_object_size
  unfolding array_length command_writer
  array_length-IsBatch [] h good = let some = good.some_operation in omega arith
  array_length-IsBatch (op ∷ ops) h good =
      array_length-AllFit 1 (append_to_command 0 empty_array op) ops
        (elim good.size [ inl one ↦ omega arith | inr many ↦ omega arith ])
        (append_lem client.max_bson_object_size 0 empty_array op (omega arith) good.fitted.0)
        good.fitted.1

  -- The arrays of these batches are no larger than the largest document that the server takes.
  pub AllSized : List (List Operation) → Type 0
  AllSized [] = Unit {0}
  AllSized (batch ∷ batches) =
      (array_length 0 empty_array batch ≤ client.max_bson_object_size) × AllSized batches

  all_batches :
      (batches : List (List Operation))
      → client.max_write_batch_size ≤ 80000
      → AllBatches (command_writer client ns ordered concern) batches
      → AllSized batches
  unfolding AllSized
  all_batches [] h good = tt
  all_batches (batch ∷ batches) h good =
      (array_length-IsBatch batch h good.0, all_batches batches h good.1)

  -- If the server takes at most 80000 operations in a batch, then the array of every batch that the command
  -- writer issues is no larger than the largest document that the server takes, with all its elements' names.
  pub write-AllSized :
      (fuel : ℕ) (ops : List Operation) (state : S) (result : WriteResult)
      → client.max_write_batch_size ≤ 80000
      → AllSized
          (write (command_writer client ns ordered concern) fuel ordered ops state result).batches
  unfolding command_writer
  write-AllSized fuel ops state result h =
      all_batches
        (write (command_writer client ns ordered concern) fuel ordered ops state result).batches h
        (write-IsOrdered (command_writer client ns ordered concern) ordered fuel ops state
          result).every
