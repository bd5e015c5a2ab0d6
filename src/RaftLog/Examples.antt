-- ===== src/RaftLog/Examples.antt =====
-- The theorems on the log at a concrete log.
use vosfs.Common.{◌≢◌, refl, ◌∷◌, [], arith}
use vosfs.Api.{LogEntry, Snapshot, default_snapshot}
use vosfs.RaftLog.Defs.{RaftLog}
use vosfs.RaftLog.Indices.{IsIndexed}

abbrev entry_11 : LogEntry
entry_11 = record { term = 2; index = 11; command = [] }

abbrev entry_12 : LogEntry
entry_12 = record { term = 3; index = 12; command = [] }

abbrev entry_13 : LogEntry
entry_13 = record { term = 3; index = 13; command = [] }

abbrev two_entries : RaftLog
two_entries = record {
  last_included_index = 10;
  last_included_term = 2;
  entries = entry_11 ∷ entry_12 ∷ [];
}

two_entries-IsIndexed : IsIndexed two_entries
two_entries-IsIndexed = record { consecutive = (refl, (refl, tt)); fits = omega arith }

not_zero : two_entries.last_included_index ≢ 0
not_zero = ground arith

abbrev at_11 : Snapshot
at_11 = record default_snapshot { last_included_index = 11; last_included_term = 2 }

has_entries : two_entries.entries ≢ []
has_entries = ground arith

moved : at_11.last_included_index ≢ two_entries.last_included_index
moved = ground arith
