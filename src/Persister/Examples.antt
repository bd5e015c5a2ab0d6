-- ===== src/Persister/Examples.antt =====
-- The theorems on the persister at the database in memory.
use vosfs.Common.{◌+◌, ◌-◌, ◌≡◌, refl, ◌∷◌, [], List, some, Str, arith}
use vosfs.Common.Result.{ok}
use vosfs.Api.{HardState, LogEntry}
use vosfs.Persister.Engine.{GetResult, WriteOp, after}
use vosfs.Persister.Defs.{
  entry_key, hard_state_key, put_ops, delete_ops, save_hard_state, load_hard_state, save_entries,
  truncate_entries, load_entries,
}
use vosfs.Persister.Storage.{IsStored, load_entries-IsStored, save_entries-IsStored}
use vosfs.Persister.HardStates.{load_hard_state-save_hard_state}
use vosfs.Persister.Samples.{
  memory, memory-laws, entry_codec, entry_codec-law, state_codec, state_codec-law, nothing,
}

abbrev entry_1 : LogEntry
entry_1 = record { term = 1; index = 1; command = [] }

abbrev entry_2 : LogEntry
entry_2 = record { term = 1; index = 2; command = [] }

abbrev both : List LogEntry
both = entry_1 ∷ entry_2 ∷ []

abbrev stored_db : Str → GetResult
stored_db k = after (put_ops entry_codec both) k (nothing k)

abbrev cut_db : Str → GetResult
cut_db k = after (WriteOp.delete (entry_key 2) ∷ []) k (stored_db k)

nothing-IsStored : IsStored memory entry_codec nothing 1 []
nothing-IsStored = record { held = λ i e h. ground (arith, h); clear = λ j h. refl }

save_both : save_entries memory entry_codec nothing both ≡ some stored_db
unfolding save_entries
save_both = refl

both-IsStored : IsStored memory entry_codec stored_db 1 both
both-IsStored =
    save_entries-IsStored memory memory-laws entry_codec entry_codec-law nothing stored_db 1 [] both
      nothing-IsStored (refl, (refl, tt)) save_both

load_entries-IsStored_example : load_entries memory entry_codec 3 stored_db 0 ≡ some (ok both)
load_entries-IsStored_example =
    load_entries-IsStored memory memory-laws entry_codec entry_codec-law 3 0 stored_db both
      both-IsStored (omega arith) (omega arith)

cut_from_2 : truncate_entries memory entry_codec stored_db (1 + 1) (1 + 2 - 1) ≡ some cut_db
unfolding truncate_entries delete_ops
cut_from_2 = refl

abbrev state_3 : HardState
state_3 = record { current_term = 3; voted_for = some 2 }

-- The databases with the state behind the entries, and with the entries once more.
abbrev state_db : Str → GetResult
state_db k = after (WriteOp.put hard_state_key (state_codec.serialize state_3) ∷ []) k (stored_db k)

abbrev last_db : Str → GetResult
last_db k = after (put_ops entry_codec both) k (state_db k)

save_state_3 : save_hard_state memory state_codec stored_db state_3 ≡ some state_db
unfolding save_hard_state
save_state_3 = refl

save_both_again : save_entries memory entry_codec state_db both ≡ some last_db
unfolding save_entries
save_both_again = refl

load_hard_state-save_hard_state_example :
    (load_hard_state memory state_codec last_db ≡ (ok state_3, last_db))
    × IsStored memory entry_codec state_db 1 both
load_hard_state-save_hard_state_example =
    load_hard_state-save_hard_state memory memory-laws state_codec state_codec-law entry_codec
      stored_db state_db last_db state_3 both 1 both save_state_3 save_both_again both-IsStored
