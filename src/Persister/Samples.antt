-- ===== src/Persister/Samples.antt =====
-- A database in memory, and encodings of the state and of the entries, on which the laws hold.
use vosfs.Common.{
  ℕ, ◌≡◌, refl, sym, ap, ◌∷◌, [], Option, none, some, Str, ite, str_discrete, some-same,
}
use vosfs.Api.{HardState, LogEntry}
use vosfs.Persister.Engine.{GetResult, found, not_found, Engine, EngineLaws, after, Codec, CodecLaw}

abbrev pub memory : Engine (Str → GetResult)
memory = record {
  get = λ db k. db k;
  put = λ db j v. some (λ k. ite (str_discrete j k) (found v) (db k));
  batch_write = λ db ops. some (λ k. after ops k (db k));
}

pub memory-laws : EngineLaws memory
memory-laws = record {
  get-put = λ db after_db j v k h. sym (ap (λ f. f k) (some-same h));
  get-batch_write = λ db after_db ops k h. sym (ap (λ f. f k) (some-same h));
}

abbrev pub parse_entry : Str → Option LogEntry
parse_entry (term ∷ index ∷ command) =
    some (record { term = term; index = index; command = command })
parse_entry _ = none

abbrev pub entry_codec : Codec LogEntry
entry_codec = record { serialize = λ e. e.term ∷ e.index ∷ e.command; parse = parse_entry }

pub entry_codec-law : CodecLaw entry_codec
entry_codec-law = record { parse-serialize = λ e. refl }

abbrev pub serialize_state : ℕ → Option ℕ → Str
serialize_state term none = term ∷ []
serialize_state term (some v) = term ∷ v ∷ []

abbrev pub parse_state : Str → Option HardState
parse_state (term ∷ []) = some (record { current_term = term; voted_for = none })
parse_state (term ∷ v ∷ _) = some (record { current_term = term; voted_for = some v })
parse_state [] = none

abbrev pub state_codec : Codec HardState
state_codec = record {
  serialize = λ s. serialize_state s.current_term s.voted_for;
  parse = parse_state;
}

state_back :
    (term : ℕ) (v : Option ℕ)
    → parse_state (serialize_state term v) ≡ some (record { current_term = term; voted_for = v })
state_back term none = refl
state_back term (some v) = refl

pub state_codec-law : CodecLaw state_codec
state_codec-law = record { parse-serialize = λ s. state_back s.current_term s.voted_for }

-- The database before anything was written.
abbrev pub nothing : Str → GetResult
nothing k = not_found
