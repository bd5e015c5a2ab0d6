-- ===== src/Persister/Defs.antt =====
-- The methods of `Persister`. Where the code aborts there is no result.
use vosfs.Common.{
  ℕ, zero, suc, ◌+◌, ◌-◌, ◌∷◌, ◌++◌, [], List, Option, none, some, Str, if◌then◌else◌, leb, add64,
  to_string, ◌>>=◌,
}
use vosfs.Common.Result.{Result, ok, err, database_query_failed, database_insert_failed}
use vosfs.Api.{HardState, LogEntry}
use vosfs.Persister.Engine.{Engine, Codec, found, not_found, failed, WriteOp}

-- "hard_state"
abbrev pub hard_state_key : Str
hard_state_key = b'h' ∷ b'a' ∷ b'r' ∷ b'd' ∷ b'_' ∷ b's' ∷ b't' ∷ b'a' ∷ b't' ∷ b'e' ∷ []

-- `Persister::get_entry_key`: "log" and the index
unfoldable pub entry_key : ℕ → Str
entry_key index = b'l' ∷ b'o' ∷ b'g' ∷ to_string index

abbrev pub default_hard_state : HardState
default_hard_state = record { current_term = 0; voted_for = none }

module _ {DB : Type 0} (engine : Engine DB) (codec : Codec HardState) where
  -- `Persister::save_hard_state`
  unfoldable pub save_hard_state : DB → HardState → Option DB
  save_hard_state db hard_state = engine.put db hard_state_key (codec.serialize hard_state)

  -- `Persister::load_hard_state`, which writes the default state if there is none.
  unfoldable pub load_hard_state : DB → Result HardState × DB
  load_hard_state db = elim (engine.get db hard_state_key) [
    | failed ↦ (err database_query_failed, db)
    | not_found ↦ elim (engine.put db hard_state_key (codec.serialize default_hard_state)) [
      | none ↦ (err database_insert_failed, db)
      | some written ↦ (ok default_hard_state, written)
    ]
    | found payload ↦ elim (codec.parse payload) [
      | none ↦ (err database_query_failed, db)
      | some hard_state ↦ (ok hard_state, db)
    ]
  ]

-- The loop of `truncate_entries` with its fuel: the batch of deletions from `index` to `end_index`.
unfoldable pub delete_ops : ℕ → ℕ → ℕ → Option (List WriteOp)
delete_ops zero index end_index = none
delete_ops (suc fuel) index end_index =
    let rest = delete_ops fuel (add64 index 1) end_index in
    if leb index end_index
    then (rest >>= λ ops. some (WriteOp.delete (entry_key index) ∷ ops))
    else some []

-- The loop of `save_entries` that fills the batch.
abbrev pub put_ops : Codec LogEntry → List LogEntry → List WriteOp
put_ops codec [] = []
put_ops codec (e ∷ es) = WriteOp.put (entry_key e.index) (codec.serialize e) ∷ put_ops codec es

module _ {DB : Type 0} (engine : Engine DB) (codec : Codec LogEntry) where
  -- `Persister::save_entry`
  unfoldable pub save_entry : DB → LogEntry → Option DB
  save_entry db entry = engine.put db (entry_key entry.index) (codec.serialize entry)

  -- `Persister::save_entries`
  unfoldable pub save_entries : DB → List LogEntry → Option DB
  save_entries db entries = engine.batch_write db (put_ops codec entries)

  -- `Persister::truncate_entries`: the fuel is one round for each index and one for the last test.
  unfoldable pub truncate_entries : DB → ℕ → ℕ → Option DB
  unfolding delete_ops
  truncate_entries db start_index end_index = do
    ops ← delete_ops (suc (end_index + 1 - start_index)) start_index end_index
    engine.batch_write db ops

  -- The loop of `load_entries` with its fuel.
  unfoldable pub load_from : ℕ → DB → ℕ → List LogEntry → Option (Result (List LogEntry))
  load_from zero db index entries = none
  load_from (suc fuel) db index entries = elim (engine.get db (entry_key index)) [
    | failed ↦ some (err database_query_failed)
    | not_found ↦ some (ok entries)
    | found payload ↦ elim (codec.parse payload) [
      | none ↦ some (err database_query_failed)
      | some entry ↦ load_from fuel db (add64 index 1) (entries ++ entry ∷ [])
    ]
  ]

  -- `Persister::load_entries`
  unfoldable pub load_entries : ℕ → DB → ℕ → Option (Result (List LogEntry))
  unfolding load_from
  load_entries fuel db last_included_index = load_from fuel db (add64 last_included_index 1) []
