-- ===== src/Bulk/Result.antt =====
-- src/mongo/client/write_result.cpp. A reply of the server is the record of what its accessors return.
use mongo_cxx_driver.Base.{
  ℕ, Bool, true, false, not, ◌||◌, ◌&&◌, List, [], ◌∷◌, ◌++◌, Option, none, some, if◌then◌else◌,
  get_elem?, length,
}
use mongo_cxx_driver.Base.Int.{ℤ, pos, ◌+ℤ◌, ◌-ℤ◌, ltb_ℤ}
use mongo_cxx_driver.Bulk.Operation.{
  Operation, WriteOpType, write_insert, write_update, write_delete,
}

-- An element of `writeErrors`, of which the parts may be missing; its text and details are bytes.
pub record ErrorReply : Type 0 where
  pub index : Option ℕ
  pub code : Option ℤ
  pub errmsg : List ℕ
  pub err_info : Option (List ℕ)

-- An element of `upserted`: a document with an index, or the id itself.
pub data UpsertReply : Type 0 where
  indexed : Option ℕ → List ℕ → UpsertReply
  plain : List ℕ → UpsertReply

-- The reply to a write command. `n_modified` is `none` where `getIntField` finds no number.
pub record CommandReply : Type 0 where
  pub n : Option ℤ
  pub upserted : Option (List UpsertReply)
  pub n_modified : Option ℤ
  pub write_errors : Option (List ErrorReply)
  pub write_concern_error : Option ErrorReply

pub record Upserted : Type 0 where
  pub index : ℕ
  pub id : List ℕ

pub record WriteError : Type 0 where
  pub index : ℕ
  pub code : ℤ
  pub errmsg : List ℕ
  pub operation : Operation
  pub details : Option (List ℕ)

pub record WriteConcernError : Type 0 where
  pub code : ℤ
  pub errmsg : List ℕ
  pub details : Option (List ℕ)

pub record WriteResult : Type 0 where
  pub n_inserted : ℤ
  pub n_upserted : ℤ
  pub n_matched : ℤ
  pub modified : ℤ
  pub n_removed : ℤ
  pub upserted : List Upserted
  pub write_errors : List WriteError
  pub write_concern_errors : List WriteConcernError
  pub has_modified_count : Bool
  pub requires_detailed_insert_results : Bool

-- `WriteResult()`.
abbrev pub no_result : WriteResult
no_result = record {
  n_inserted = pos 0;
  n_upserted = pos 0;
  n_matched = pos 0;
  modified = pos 0;
  n_removed = pos 0;
  upserted = [];
  write_errors = [];
  write_concern_errors = [];
  has_modified_count = true;
  requires_detailed_insert_results = false;
}

abbrev pub or_default {ℓ} : {A : Type ℓ} → Option A → A → A
or_default none d = d
or_default (some a) d = a

abbrev is_nil {ℓ} : {A : Type ℓ} → List A → Bool
is_nil [] = true
is_nil (a ∷ more) = false

unfoldable pub has_write_errors : WriteResult → Bool
has_write_errors r = not (is_nil r.write_errors)

unfoldable pub has_write_concern_errors : WriteResult → Bool
has_write_concern_errors r = not (is_nil r.write_concern_errors)

unfoldable pub has_errors : WriteResult → Bool
unfolding has_write_errors has_write_concern_errors
has_errors r = has_write_errors r || has_write_concern_errors r

-- `nModified`, whose assertion is `none`.
unfoldable pub n_modified : WriteResult → Option ℤ
n_modified r = if r.has_modified_count then some r.modified else none

-- `_setModified`.
unfoldable pub set_modified : Option ℤ → WriteResult → WriteResult
set_modified none r = record r { has_modified_count = false }
set_modified (some n) r =
    if r.has_modified_count && not (ltb_ℤ n (pos 0))
    then record r { modified = r.modified +ℤ n }
    else record r { has_modified_count = false }

-- `ops[batchIndex]` out of range is `none`.
abbrev with_operation : Option Operation → (Operation → WriteResult) → Option WriteResult
with_operation none f = none
with_operation (some op) f = some (f op)

abbrev reply_index : UpsertReply → ℕ
reply_index (indexed i id) = or_default i 0
reply_index (plain id) = 0

abbrev reply_id : UpsertReply → List ℕ
reply_id (indexed i id) = id
reply_id (plain id) = id

-- `_createUpsert`.
unfoldable pub create_upsert : UpsertReply → List Operation → WriteResult → Option WriteResult
create_upsert u ops r = with_operation (get_elem? ops (reply_index u)) (λ op. record r {
  upserted = r.upserted ++ (record { index = op.bulk_index; id = reply_id u } ∷ []);
})

infixl 1 ◌then_do◌
abbrev pub ◌then_do◌ {ℓ κ} : {A : Type ℓ} {B : Type κ} → Option A → (A → Option B) → Option B
none then_do f = none
(some a) then_do f = f a

-- `_createUpserts`, which also counts them.
unfoldable pub create_upserts : List UpsertReply → List Operation → WriteResult → Option WriteResult
unfolding create_upsert
create_upserts [] ops r = some r
create_upserts (u ∷ us) ops r = create_upsert u ops r then_do create_upserts us ops

abbrev unknown_error : ℤ
unknown_error = pos 8

abbrev write_concern_code : ℤ
write_concern_code = pos 64

-- `_createWriteError`.
unfoldable pub create_write_error : ErrorReply → List Operation → WriteResult → Option WriteResult
create_write_error e ops r = with_operation (get_elem? ops (or_default e.index 0)) (λ op. record r {
  write_errors =
      r.write_errors
      ++ (record {
        index = op.bulk_index;
        code = or_default e.code unknown_error;
        errmsg = e.errmsg;
        operation = op;
        details = e.err_info;
      }
          ∷ []);
})

unfoldable pub create_write_errors :
    List ErrorReply → List Operation → WriteResult → Option WriteResult
unfolding create_write_error
create_write_errors [] ops r = some r
create_write_errors (e ∷ es) ops r = create_write_error e ops r then_do create_write_errors es ops

-- `_createWriteConcernError`.
unfoldable pub create_write_concern_error : ErrorReply → WriteResult → WriteResult
create_write_concern_error e r = record r {
  write_concern_errors =
      r.write_concern_errors
      ++ (record {
        code = or_default e.code write_concern_code;
        errmsg = e.errmsg;
        details = e.err_info;
      }
          ∷ []);
}

-- What an update changes in `_mergeCommandResult`.
unfoldable pub merge_update : ℤ → CommandReply → List Operation → WriteResult → Option WriteResult
unfolding create_upserts
merge_update affected reply ops r = elim reply.upserted [
  | none ↦ some (record r { n_matched = r.n_matched +ℤ affected })
  | some us ↦ create_upserts us ops r then_do λ r'. some (record r' {
    n_upserted = r'.n_upserted +ℤ pos (length us);
    n_matched = r'.n_matched +ℤ (affected -ℤ pos (length us));
  })
]

unfoldable pub merge_counts :
    ℤ → CommandReply → WriteOpType → List Operation → WriteResult → Option WriteResult
unfolding merge_update set_modified
merge_counts affected reply write_insert ops r =
    some (record r { n_inserted = r.n_inserted +ℤ affected })
merge_counts affected reply write_delete ops r =
    some (record r { n_removed = r.n_removed +ℤ affected })
merge_counts affected reply write_update ops r =
    merge_update affected reply ops r then_do λ r'. some (set_modified reply.n_modified r')

abbrev add_concern_error : Option ErrorReply → WriteResult → WriteResult
add_concern_error none r = r
add_concern_error (some e) r = create_write_concern_error e r

-- `_mergeCommandResult`, for operations of this type.
unfoldable pub merge_command_result :
    WriteOpType → List Operation → CommandReply → WriteResult → Option WriteResult
unfolding merge_counts create_write_errors create_write_concern_error
merge_command_result kind ops reply r =
    merge_counts (or_default reply.n (pos 0)) reply kind ops r then_do λ counted.
    create_write_errors (or_default reply.write_errors []) ops counted then_do λ noted.
    some (add_concern_error reply.write_concern_error noted)

-- `_check`: whether it throws.
unfoldable pub check : Bool → WriteResult → Bool
unfolding has_write_errors has_write_concern_errors
check soft r = has_write_errors r || (soft && has_write_concern_errors r)
