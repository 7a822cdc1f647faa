-- ===== src/Bulk/Writers.antt =====
-- src/mongo/client/command_writer.cpp and wire_protocol_writer.cpp. The connection is a parameter: its limits,
-- and what it does with a command or a message. Of BSON access, the `_id` of an update is a parameter.
pub mod Sizes
use mongo_cxx_driver.Base.{
  ℕ, zero, suc, ◌+◌, ◌*◌, ◌==◌, Bool, true, false, ◌||◌, ◌&&◌, not, List, [], ◌∷◌, ◌++◌, Option,
  none, some, if◌then◌else◌, leb, length,
}
use mongo_cxx_driver.Base.Int.{ℤ, pos, ◌+ℤ◌}
use mongo_cxx_driver.Net.HostAndPort.{int_eq}
use mongo_cxx_driver.Bulk.Operation.{
  Operation, WriteOpType, write_insert, write_update, write_delete, incremental_size,
  append_to_command, start_request, append_to_request,
}
use mongo_cxx_driver.Bulk.Concern.{WriteConcern, Setting, obj, requires_confirmation}
use mongo_cxx_driver.Bulk.Result.{
  CommandReply, ErrorReply, UpsertReply, plain, WriteResult, merge_command_result, create_upsert,
  create_write_error, create_write_concern_error, set_modified, or_default, ◌then_do◌,
}
use mongo_cxx_driver.Bulk.Batch.{
  Fit, fits, overfull, oversize, Issued, merged, command_failed, bad_index, Writer, Run, write,
}

pub record Command : Type 0 where
  pub kind : WriteOpType
  pub operations : List Operation
  pub ordered : Bool
  pub write_concern : List Setting

-- The reply to `getlasterror`.
pub record GleReply : Type 0 where
  pub n : Option ℤ
  pub errmsg : Option (List ℕ)
  pub err : Option (List ℕ)
  pub wtimeout : Bool
  pub code : Option ℤ
  pub err_info : Option (List ℕ)
  pub upserted : Option UpsertReply
  pub updated_existing : Option Bool
  pub n_modified : Option ℤ

-- The empty object.
abbrev no_reply : GleReply
no_reply = record {
  n = none;
  errmsg = none;
  err = none;
  wtimeout = false;
  code = none;
  err_info = none;
  upserted = none;
  updated_existing = none;
  n_modified = none;
}

pub record Client (S : Type 0) : Type 0 where
  pub max_write_batch_size : ℕ
  pub max_bson_object_size : ℕ
  pub max_message_size : ℕ
  pub run_command : S → Command → S × (Bool × CommandReply)
  pub say : S → WriteOpType → List Operation → S
  pub get_last_error : S → List Setting → S × (Bool × GleReply)
  pub id_of : Operation → List ℕ

abbrev pub k_overhead : ℕ
k_overhead = 8 * 1024

-- A new `BSONArrayBuilder`: a holder of one 32-bit counter, and the size.
abbrev pub empty_array : ℕ
empty_array = 4 + 4

-- `CommandWriter::_fits`.
unfoldable pub command_fits : ℕ → ℕ → Operation → Fit
unfolding incremental_size
command_fits max_size len op =
    if leb (incremental_size op) max_size
    then (if leb (len + incremental_size op + k_overhead) max_size then fits else overfull)
    else oversize

abbrev merged_or_bad : {S : Type 0} → S → Option WriteResult → Issued S
merged_or_bad state none = bad_index state
merged_or_bad state (some r) = merged state r

-- `CommandWriter::_send` and `_mergeCommandResult`.
abbrev command_reply :
    {S : Type 0} → WriteOpType → List Operation → WriteResult → S × (Bool × CommandReply) → Issued S
command_reply kind ops r (state, (false, reply)) = command_failed state
command_reply kind ops r (state, (true, reply)) =
    merged_or_bad state (merge_command_result kind ops reply r)

-- The text of an error in a reply, if it is not empty.
abbrev error_text : GleReply → List ℕ
error_text reply = or_default reply.errmsg (or_default reply.err [])

abbrev as_error : GleReply → ErrorReply
as_error reply = record {
  index = none;
  code = reply.code;
  errmsg = or_default reply.errmsg [];
  err_info = reply.err_info;
}

abbrev created_id : (Operation → List ℕ) → List Operation → List ℕ
created_id id_of [] = []
created_id id_of (op ∷ ops) = id_of op

abbrev is_created : Option Bool → ℤ → Bool
is_created none affected = false
is_created (some existing) affected = not existing && int_eq affected (pos 1)

-- The counts of an update in `_mergeGleResult`.
unfoldable pub merge_gle_update :
    (Operation → List ℕ) → ℤ → GleReply → List Operation → WriteResult → Option WriteResult
unfolding create_upsert int_eq
merge_gle_update id_of affected reply ops r = elim reply.upserted [
  | some u ↦ create_upsert u ops r then_do λ r'.
      some (record r' { n_upserted = r'.n_upserted +ℤ affected })
  | none ↦
      if is_created reply.updated_existing affected
      then (create_upsert (plain (created_id id_of ops)) ops r then_do λ r'.
          some (record r' { n_upserted = r'.n_upserted +ℤ affected }))
      else some (record r { n_matched = r.n_matched +ℤ affected })
]

unfoldable pub merge_gle_counts :
    (Operation → List ℕ)
    → ℤ
    → GleReply
    → WriteOpType
    → List Operation
    → WriteResult
    → Option WriteResult
unfolding merge_gle_update set_modified
merge_gle_counts id_of affected reply write_insert ops r =
    some (record r { n_inserted = r.n_inserted +ℤ pos 1 })
merge_gle_counts id_of affected reply write_delete ops r =
    some (record r { n_removed = r.n_removed +ℤ affected })
merge_gle_counts id_of affected reply write_update ops r =
    merge_gle_update id_of affected reply ops r then_do λ r'.
    some (set_modified reply.n_modified r')

abbrev merge_gle_error : GleReply → List Operation → WriteResult → Bool → Option WriteResult
merge_gle_error reply ops r true = some (create_write_concern_error (as_error reply) r)
merge_gle_error reply ops r false = create_write_error (as_error reply) ops r

-- `_mergeGleResult`, for operations of this type.
unfoldable pub merge_gle_result :
    (Operation → List ℕ)
    → WriteOpType
    → List Operation
    → GleReply
    → WriteResult
    → Option WriteResult
unfolding merge_gle_counts create_write_concern_error create_write_error
merge_gle_result id_of kind ops reply r = elim (error_text reply) [
  | [] ↦ merge_gle_counts id_of (or_default reply.n (pos 0)) reply kind ops r
  | c ∷ text ↦ merge_gle_error reply ops r reply.wtimeout
]

abbrev gle_reply :
    {S : Type 0}
    → (Operation → List ℕ)
    → WriteOpType
    → List Operation
    → WriteResult
    → S × (Bool × GleReply)
    → Issued S
gle_reply id_of kind ops r (state, (false, reply)) = command_failed state
gle_reply id_of kind ops r (state, (true, reply)) =
    merged_or_bad state (merge_gle_result id_of kind ops reply r)

-- `_batchableRequest`.
unfoldable pub batchable_request : WriteOpType → Bool → Bool
batchable_request write_insert detailed = not detailed
batchable_request write_update detailed = false
batchable_request write_delete detailed = false

module _ {S : Type 0} (client : Client S) (ns : List ℕ) (ordered : Bool)
    (concern : WriteConcern) where
  -- `CommandWriter`.
  unfoldable pub command_writer : Writer S
  unfolding command_fits append_to_command merge_command_result obj
  command_writer = record {
    empty_length = empty_array;
    start = λ len op. len;
    append = append_to_command;
    fit = command_fits client.max_bson_object_size;
    batchable = λ kind. true;
    max_batch_size = client.max_write_batch_size;
    issue = λ state kind ops r. command_reply kind ops r (
        client.run_command state
          record { kind = kind; operations = ops; ordered = ordered; write_concern = obj concern });
  }

  -- `WireProtocolWriter::_fits`.
  unfoldable pub request_fits : ℕ → Operation → Fit
  unfolding incremental_size
  request_fits len op =
      if leb (len + incremental_size op) client.max_message_size then fits else overfull

  -- `WireProtocolWriter::_send`, and `_mergeGleResult`.
  unfoldable pub send_request : S → WriteOpType → List Operation → WriteResult → Issued S
  unfolding requires_confirmation merge_gle_result obj
  send_request state kind ops r =
      let said = client.say state kind ops in
      gle_reply client.id_of kind ops r (
        if requires_confirmation concern
        then client.get_last_error said (obj concern)
        else (said, (true, no_reply)))

  -- `WireProtocolWriter`, for a result that wants details or not.
  unfoldable pub wire_protocol_writer : Bool → Writer S
  unfolding request_fits send_request batchable_request start_request append_to_request
  wire_protocol_writer detailed = record {
    empty_length = 0;
    start = start_request ns;
    append = λ index. append_to_request;
    fit = request_fits;
    batchable = λ kind. batchable_request kind detailed;
    max_batch_size = client.max_write_batch_size;
    issue = send_request;
  }
