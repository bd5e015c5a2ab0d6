-- ===== src/Persister/HardStates.antt =====
-- The persistent term and vote.
use vosfs.Common.{ℕ, ◌+◌, ◌≡◌, ◌∙◌, List, some, arith, str_discrete}
use mathlib.Core.Logic.{if_neg, if_pos}
use vosfs.Common.{refl}
use vosfs.Common.Result.{ok}
use vosfs.Api.{LogEntry, HardState}
use vosfs.Persister.Engine.{Engine, EngineLaws, Codec, CodecLaw, found, not_found}
use vosfs.Persister.Defs.{
  hard_state_key, entry_key, put_ops, default_hard_state, save_hard_state, load_hard_state,
  save_entries,
}
use vosfs.Persister.Entries.{hard_state_key-ne, after-put_hard_state}
use vosfs.Persister.Storage.{IsStored}

module _ {DB : Type 0} (engine : Engine DB) (laws : EngineLaws engine) (codec : Codec HardState)
    (law : CodecLaw codec) (entry_codec : Codec LogEntry) where
  abbrev HoldsHardState : DB → HardState → Type 0
  HoldsHardState db h = engine.get db hard_state_key ≡ found (codec.serialize h)

  pub save_hard_state-holds :
      (db after_db : DB) (h : HardState)
      → save_hard_state engine codec db h ≡ some after_db
      → engine.get after_db hard_state_key ≡ found (codec.serialize h)
  unfolding save_hard_state
  save_hard_state-holds db after_db h saved =
      laws.get-put db after_db hard_state_key (codec.serialize h) hard_state_key saved
      ∙ if_pos (str_discrete hard_state_key hard_state_key) refl _ _

  load_hard_state-held :
      (db : DB) (h : HardState)
      → engine.get db hard_state_key ≡ found (codec.serialize h)
      → load_hard_state engine codec db ≡ (ok h, db)
  unfolding load_hard_state
  load_hard_state-held db h held = ground (arith, law.parse-serialize h)

  -- A term and vote that were saved are what a restart loads, also after entries were saved behind
  -- them, and saving them leaves every stored entry as it is.
  pub load_hard_state-save_hard_state :
      (db saved_db after_db : DB) (h : HardState) (es : List LogEntry) (n : ℕ)
      (stored : List LogEntry)
      → save_hard_state engine codec db h ≡ some saved_db
      → save_entries engine entry_codec saved_db es ≡ some after_db
      → IsStored engine entry_codec db n stored
      → (load_hard_state engine codec after_db ≡ (ok h, after_db))
        × IsStored engine entry_codec saved_db n stored
  unfolding save_hard_state save_entries
  load_hard_state-save_hard_state db saved_db after_db h es n stored saved written v = (
    load_hard_state-held after_db h (
        laws.get-batch_write saved_db after_db (put_ops entry_codec es) hard_state_key written
        ∙ after-put_hard_state entry_codec es _
        ∙ save_hard_state-holds db saved_db h saved),
    record {
      held = λ i e at. untouched (n + i) ∙ v.held i e at;
      clear = λ j past. untouched j ∙ v.clear j past;
    },
  )
    where
      untouched : (j : ℕ) → engine.get saved_db (entry_key j) ≡ engine.get db (entry_key j)
      untouched j =
          laws.get-put db saved_db hard_state_key (codec.serialize h) (entry_key j) saved
          ∙ if_neg (str_discrete hard_state_key (entry_key j)) (hard_state_key-ne j) _ _

  -- A node that never saved a state starts in term 0 with no vote, and has then saved that.
  pub load_hard_state-default :
      (db after_db : DB)
      → engine.get db hard_state_key ≡ not_found
      → engine.put db hard_state_key (codec.serialize default_hard_state) ≡ some after_db
      → (load_hard_state engine codec db ≡ (ok default_hard_state, after_db))
        × (load_hard_state engine codec after_db ≡ (ok default_hard_state, after_db))
  unfolding load_hard_state save_hard_state
  load_hard_state-default db after_db fresh written = (
    ground arith,
    load_hard_state-held after_db default_hard_state
        (save_hard_state-holds db after_db default_hard_state written),
  )
