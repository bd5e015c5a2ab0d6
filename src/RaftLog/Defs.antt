-- ===== src/RaftLog/Defs.antt =====
-- The methods of `RaftLog`. A method that asserts has no result where the assertion fails, or
-- where it reads outside the vector.
use vosfs.Common.{
  ℕ, zero, suc, ◌+◌, ◌∷◌, ◌++◌, [], List, Bool, Option, none, some, ◌&&◌, ◌||◌, ◌==◌, ltb, leb,
  if◌then◌else◌, add64, sub64, length, get_elem?, get_last?, take, drop, ◌>>=◌, ◌>>◌, assert,
}
use vosfs.Api.{LogEntry, Snapshot}

pub record RaftLog : Type 0 where
  pub last_included_index : ℕ
  pub last_included_term : ℕ
  pub entries : List LogEntry

-- `RaftLog::load_snapshot`
unfoldable pub load_snapshot : RaftLog → Snapshot → RaftLog
load_snapshot l snapshot = record l {
  last_included_index = snapshot.last_included_index;
  last_included_term = snapshot.last_included_term;
}

-- `RaftLog::last_log_index`
abbrev pub last_log_index : RaftLog → ℕ
last_log_index l = add64 l.last_included_index (length l.entries)

-- `RaftLog::last_log_term`
unfoldable pub last_log_term : RaftLog → ℕ
last_log_term l = elim (get_last? l.entries) [
  | none ↦ if last_log_index l == 0 then 0 else l.last_included_term
  | some e ↦ e.term
]

-- The test `index > last_included_index() && index <= last_log_index()`, and the place in the vector.
abbrev pub in_entries : RaftLog → ℕ → Bool
in_entries l index = ltb l.last_included_index index && leb index (last_log_index l)

abbrev pub arr_idx : RaftLog → ℕ → ℕ
arr_idx l index = sub64 (sub64 index l.last_included_index) 1

-- `RaftLog::get_term`
unfoldable pub get_term : RaftLog → ℕ → Option ℕ
get_term l index = do
  assert (in_entries l index || index == l.last_included_index)
  (if index == l.last_included_index
      then some l.last_included_term
      else get_elem? l.entries (arr_idx l index) >>= λ e. some e.term)

-- `RaftLog::get_entry`
unfoldable pub get_entry : RaftLog → ℕ → Option LogEntry
get_entry l index = do assert (in_entries l index); get_elem? l.entries (arr_idx l index)

-- The loop of `get_entries`: at most `size` entries from `i` on.
unfoldable pub collect : ℕ → List LogEntry → ℕ → List LogEntry
collect zero entries i = []
collect (suc size) entries i = elim (get_elem? entries i) [
  | none ↦ []
  | some e ↦ e ∷ collect size entries (suc i)
]

-- `RaftLog::get_entries`
unfoldable pub get_entries : RaftLog → ℕ → ℕ → Option (List LogEntry)
unfolding collect
get_entries l index size = do
  assert (in_entries l index)
  some (collect size l.entries (arr_idx l index))

-- `RaftLog::get_entries_span`: the span must lie inside the vector.
unfoldable pub get_entries_span : RaftLog → ℕ → ℕ → Option (List LogEntry)
get_entries_span l index size = do
  assert (in_entries l index)
  assert (leb (arr_idx l index + size) (length l.entries))
  some (take size (drop (arr_idx l index) l.entries))

-- `RaftLog::append_entry`
unfoldable pub append_entry : RaftLog → LogEntry → RaftLog
append_entry l entry = record l { entries = l.entries ++ entry ∷ [] }

-- `RaftLog::append_entries`
unfoldable pub append_entries : RaftLog → List LogEntry → RaftLog
unfolding append_entry
append_entries l [] = l
append_entries l (e ∷ es) = append_entries (append_entry l e) es

-- `RaftLog::truncate_entries_before`, which erases the entry at `index` and all behind it.
unfoldable pub truncate_entries_before : RaftLog → ℕ → Option RaftLog
truncate_entries_before l index = do
  assert (in_entries l index)
  some (record l { entries = take (arr_idx l index) l.entries })
