-- ===== src/Bulk/Tests.antt =====
-- A connection that answers every command, and runs of the writers of src/mongo/client on it.
use mongo_cxx_driver.Base.{
  ℕ, ◌≡◌, ◌≤◌, refl, true, false, not, List, [], ◌∷◌, none, some, length, map, arith,
}
use mongo_cxx_driver.Base.Int.{pos}
use mongo_cxx_driver.Bulk.Operation.{Operation, insert, delete}
use mongo_cxx_driver.Bulk.Concern.{
  WriteConcern, default_concern, nodes, obj, by_default, by_nodes, obj-IsBuilt, w_values,
  requires_confirmation, has_zero_w,
}
use mongo_cxx_driver.Bulk.Result.{no_result, CommandReply}
use mongo_cxx_driver.Bulk.Batch.{Writer, write}
use mongo_cxx_driver.Bulk.Batch.Runs.{IsOrdered, write-IsOrdered}
use mongo_cxx_driver.Bulk.Batch.Errors.{IsClean, write-IsClean}
use mongo_cxx_driver.Bulk.Writers.{Client, GleReply, command_writer, wire_protocol_writer}
use mongo_cxx_driver.Bulk.Writers.Sizes.{AllSized, write-AllSized}

abbrev good : CommandReply
good = record {
  n = some (pos 1);
  upserted = none;
  n_modified = none;
  write_errors = none;
  write_concern_error = none;
}

abbrev confirmed : GleReply
confirmed = record {
  n = some (pos 1);
  errmsg = none;
  err = none;
  wtimeout = false;
  code = none;
  err_info = none;
  upserted = none;
  updated_existing = none;
  n_modified = none;
}

-- It counts the calls, and takes two operations in a batch.
abbrev connection : Client ℕ
connection = record {
  max_write_batch_size = 2;
  max_bson_object_size = 9000;
  max_message_size = 9000;
  run_command = λ calls command. (Prim.Native.Nat.suc calls, (true, good));
  say = λ calls kind ops. Prim.Native.Nat.suc calls;
  get_last_error = λ calls settings. (Prim.Native.Nat.suc calls, (true, confirmed));
  id_of = λ op. [];
}

abbrev document : List ℕ
document = 5 ∷ 0 ∷ 0 ∷ 0 ∷ 0 ∷ []

abbrev operations : List Operation
operations =
    record { bulk_index = 0; body = insert document }
    ∷ record { bulk_index = 1; body = insert document }
    ∷ record { bulk_index = 2; body = insert document }
    ∷ record { bulk_index = 3; body = delete document true }
    ∷ []

abbrev commands : Writer ℕ
commands = command_writer connection [] true default_concern

batch_sizes : map length (write commands 4 true operations 0 no_result).batches ≡ 2 ∷ 1 ∷ 1 ∷ []
unfolding write command_writer
batch_sizes = refl

request_sizes :
    map length
      (write
        (wire_protocol_writer connection [] true default_concern true)
        4
        true
        operations
        0
        no_result).batches
    ≡ 1 ∷ 1 ∷ 1 ∷ 1 ∷ []
unfolding write wire_protocol_writer
request_sizes = refl

write-IsOrdered_example :
    IsOrdered commands operations (write commands 4 true operations 0 no_result)
write-IsOrdered_example = write-IsOrdered commands true 4 operations 0 no_result

write-IsClean_example : IsClean operations no_result (write commands 4 true operations 0 no_result)
write-IsClean_example = write-IsClean commands true 4 operations 0 no_result (omega arith)

write-AllSized_example :
    AllSized connection [] true default_concern
      (write commands 4 true operations 0 no_result).batches
write-AllSized_example =
    write-AllSized connection [] true default_concern 4 operations 0 no_result (omega arith)

abbrev unacknowledged : WriteConcern
unacknowledged = nodes default_concern (pos 0)

obj-IsBuilt_example :
    (length (w_values (obj unacknowledged)) ≤ 1)
    × (not (requires_confirmation unacknowledged) ≡ has_zero_w (obj unacknowledged))
obj-IsBuilt_example = obj-IsBuilt unacknowledged (by_nodes (pos 0) by_default)
