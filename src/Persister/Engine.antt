-- ===== src/Persister/Engine.antt =====
-- What the persister uses of the database and of the messages' encoding. Neither is implemented
-- here: `Engine` is RocksDB behind `RocksDBEngine`, `Codec` is protobuf's `SerializeAsString` and
-- `ParseFromString`. The laws state what the two promise.
use vosfs.Common.{◌≡◌, List, [], ◌∷◌, Option, some, Str, ite, str_discrete}

-- The result of a read: a value, `IsNotFound`, or another status.
pub data GetResult : Type 0 where
  found : Str → GetResult
  not_found failed : GetResult

-- An entry of a `WriteBatch`
pub data WriteOp : Type 0 where
  put : Str → Str → WriteOp
  delete : Str → WriteOp

-- A write that fails has no new database.
pub record Engine (DB : Type 0) : Type 0 where
  pub get : DB → Str → GetResult
  pub put : DB → Str → Str → Option DB
  pub batch_write : DB → List WriteOp → Option DB

-- What stands at a key after the writes of a batch, one after the other.
abbrev pub after : List WriteOp → Str → GetResult → GetResult
after [] k r = r
after (WriteOp.put j v ∷ ops) k r = after ops k (ite (str_discrete j k) (found v) r)
after (WriteOp.delete j ∷ ops) k r = after ops k (ite (str_discrete j k) not_found r)

pub record EngineLaws {DB : Type 0} (engine : Engine DB) : Type 0 where
  pub get-put :
      (db after_db : DB) (j v k : Str)
      → engine.put db j v ≡ some after_db
      → engine.get after_db k ≡ ite (str_discrete j k) (found v) (engine.get db k)
  pub get-batch_write :
      (db after_db : DB) (ops : List WriteOp) (k : Str)
      → engine.batch_write db ops ≡ some after_db
      → engine.get after_db k ≡ after ops k (engine.get db k)

pub record Codec (A : Type 0) : Type 0 where
  pub serialize : A → Str
  pub parse : Str → Option A

pub record CodecLaw {A : Type 0} (codec : Codec A) : Type 0 where
  pub parse-serialize : (a : A) → codec.parse (codec.serialize a) ≡ some a
