-- ===== src/Bulk/Operation.antt =====
-- The write operations of src/mongo/client: insert_write_operation.cpp, update_write_operation.cpp and
-- delete_write_operation.cpp. A document is its bytes.
use mongo_cxx_driver.Base.{ℕ, zero, suc, ◌+◌, ◌/◌, Bool, List, length, ltb, if◌then◌else◌}

-- `WriteOpType`.
pub data WriteOpType : Type 0 where
  write_insert write_update write_delete : WriteOpType

-- `WriteOperation` with its bulk index; the flags of an update are `multi` and `upsert`, that of a delete is
-- `just_one`.
pub data Body : Type 0 where
  insert : List ℕ → Body
  update : List ℕ → List ℕ → Bool → Bool → Body
  delete : List ℕ → Bool → Body

pub record Operation : Type 0 where
  pub bulk_index : ℕ
  pub body : Body

unfoldable pub operation_type : Operation → WriteOpType
operation_type op = elim op.body [
  | insert doc ↦ write_insert
  | update selector doc multi upsert ↦ write_update
  | delete selector just_one ↦ write_delete
]

unfoldable pub incremental_size : Operation → ℕ
incremental_size op = elim op.body [
  | insert doc ↦ length doc
  | update selector doc multi upsert ↦ length selector + length doc
  | delete selector just_one ↦ length selector
]

-- The size of a document around its elements, and of an element: the type, the name and its terminator.
abbrev around : ℕ
around = 5

abbrev element : ℕ → ℕ → ℕ
element name value = 1 + name + 1 + value

-- The size of the document that `appendSelfToCommand` adds to the batch.
unfoldable pub document_size : Operation → ℕ
document_size op = elim op.body [
  | insert doc ↦ length doc
  | update selector doc multi upsert ↦
      around + element 1 (length selector) + element 1 (length doc) + element 5 1 + element 6 1
  | delete selector just_one ↦ around + element 1 (length selector) + element 5 4
]

-- The digits of `numStr`.
unfoldable pub digits_in : ℕ → ℕ → ℕ
digits_in zero n = 1
digits_in (suc fuel) n = let more = digits_in fuel (n / 10) in if ltb n 10 then 1 else suc more

-- `batch->append(document)` on a `BSONArrayBuilder` of this length, which has `index` elements.
unfoldable pub append_to_command : ℕ → ℕ → Operation → ℕ
unfolding document_size digits_in
append_to_command index len op = len + element (digits_in index index) (document_size op)

-- `startRequest` and `appendSelfToRequest` on a `BufBuilder` of this length.
unfoldable pub start_request : List ℕ → ℕ → Operation → ℕ
start_request ns len op = elim op.body [
  | insert doc ↦ len + 4 + (length ns + 1)
  | update selector doc multi upsert ↦ len + 4 + (length ns + 1) + 4
  | delete selector just_one ↦ len + 4 + (length ns + 1) + 4
]

unfoldable pub append_to_request : ℕ → Operation → ℕ
unfolding incremental_size
append_to_request len op = len + incremental_size op
