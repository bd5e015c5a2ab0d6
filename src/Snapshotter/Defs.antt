-- ===== src/Snapshotter/Defs.antt =====
-- The methods of `Snapshotter`. A method has no result where it waits for a mutex that is never
-- unlocked.
use vosfs.Common.{
  ℕ, ◌∷◌, [], Bool, true, false, Option, none, some, Str, not, ◌==◌, if◌then◌else◌, min, add64,
  sub64, length, ◌>>◌, ℕ_discrete, assert,
}
use vosfs.Common.Map.{Map, access, put}
use vosfs.Common.Result.{
  Result, ok, err, file_open_failed, file_write_failed, file_rename_failed, file_seek_failed,
  file_read_failed, parse_failed,
}
use vosfs.Api.{Snapshot, InstallSnapshotRequest}
use vosfs.Persister.Engine.{Codec}

-- What the snapshotter uses of the file system. A `Bool` says whether the call succeeded.
pub record Files (FS : Type 0) : Type 0 where
  -- `File::options().truncate(true).create(true).open(path)`
  pub create : FS → Str → FS × Bool
  -- `File::open(path)`
  pub open_file : FS → Str → Bool
  -- `file.write_all(data)` on the file that was opened at the path
  pub write_all : FS → Str → Str → FS × Bool
  pub rename : FS → Str → Str → FS × Bool
  -- `file.seek(offset, SEEK_SET)`
  pub seek : FS → Str → ℕ → Bool
  -- `file.read_exact(data)` after the seek: the offset and the size of `data`
  pub read_exact : FS → Str → ℕ → ℕ → Option Str
  -- all of the file, if it can be opened
  pub read_file : FS → Str → Option Str

-- `max_snapshot_chunk_size` of include/vosfs/raft/config.hpp
abbrev pub max_snapshot_chunk_size : ℕ
max_snapshot_chunk_size = 4096

pub record Snapshotter : Type 0 where
  pub locked : Bool
  pub offsets : Map ℕ ℕ
  pub snapshot_size : ℕ
  pub tmp_path : Str
  pub snapshot_path : Str

-- `Snapshotter(tmp_path, snapshot_path)`
abbrev pub create : Str → Str → Snapshotter
create tmp_path snapshot_path = record {
  locked = false;
  offsets = [];
  snapshot_size = 0;
  tmp_path = tmp_path;
  snapshot_path = snapshot_path;
}

-- `co_await mutex_.lock()`
abbrev pub lock : Snapshotter → Option (Unit {0})
lock s = assert (not s.locked)

-- `Snapshotter::offset_at`: it returns before the line that unlocks.
unfoldable pub offset_at : Snapshotter → ℕ → Option (Snapshotter × ℕ)
unfolding access
offset_at s member_id = do
  lock s
  let (offsets, offset) = access ℕ_discrete member_id 0 s.offsets
  some (record s { locked = true; offsets = offsets }, offset)

-- `Snapshotter::reset_offsets`
abbrev pub zeros : Map ℕ ℕ → Map ℕ ℕ
zeros [] = []
zeros ((k, offset) ∷ m) = (k, 0) ∷ zeros m

unfoldable pub reset_offsets : Snapshotter → Snapshotter
reset_offsets s = record s { offsets = zeros s.offsets }

module _ {FS : Type 0} (files : Files FS) (codec : Codec Snapshot) where
  -- `Snapshotter::load_snapshot`
  unfoldable pub load_snapshot : Snapshotter → FS → Snapshotter × Result Snapshot
  load_snapshot s fs = elim (files.read_file fs s.snapshot_path) [
    | none ↦ (s, err file_open_failed)
    | some buf ↦ elim (codec.parse buf) [
      | none ↦ (s, err parse_failed)
      | some snapshot ↦ (record s { snapshot_size = length buf }, ok snapshot)
    ]
  ]

  -- `Snapshotter::save_snapshot`
  unfoldable pub save_snapshot :
      Snapshotter → FS → Snapshot → Option (Snapshotter × FS × Result (Unit {0}))
  save_snapshot s fs snapshot = do
    let buf = codec.serialize snapshot
    lock s
    let (created, is_open) = files.create fs s.tmp_path
    (if not is_open
        then some (s, created, err file_open_failed)
        else (let (written, is_written) = files.write_all created s.tmp_path buf in
            if not is_written
            then some (s, written, err file_write_failed)
            else (let (renamed, is_renamed) = files.rename written s.tmp_path s.snapshot_path in
                if not is_renamed
                then some (s, renamed, err file_rename_failed)
                else some (record s { snapshot_size = length buf }, renamed, ok tt))))

  -- An error of `load_snapshot_data`, which starts the transfer to the peer again.
  abbrev restart :
      Snapshotter
      → ℕ
      → InstallSnapshotRequest
      → Result (Unit {0})
      → Option (Snapshotter × InstallSnapshotRequest × Result (Unit {0}))
  restart s member_id request e =
      some (record s { offsets = put ℕ_discrete member_id 0 s.offsets }, request, e)

  -- `Snapshotter::load_snapshot_data`
  unfoldable pub load_snapshot_data :
      Snapshotter
      → FS
      → ℕ
      → InstallSnapshotRequest
      → Option (Snapshotter × InstallSnapshotRequest × Result (Unit {0}))
  unfolding access put
  load_snapshot_data given fs member_id request = do
    lock given
    let (offsets, offset) = access ℕ_discrete member_id 0 given.offsets
    let s = record given { offsets = offsets }
    let size = min max_snapshot_chunk_size (sub64 s.snapshot_size offset)
    (if not (files.open_file fs s.snapshot_path)
        then restart s member_id request (err file_open_failed)
        else if not (files.seek fs s.snapshot_path offset)
        then restart s member_id request (err file_seek_failed)
        else elim (files.read_exact fs s.snapshot_path offset size) [
          | none ↦ restart s member_id request (err file_read_failed)
          | some chunk ↦
              (let done = add64 offset size == s.snapshot_size in
                some (
                  record s {
                    offsets =
                        put ℕ_discrete member_id (if done then 0 else add64 offset size) s.offsets;
                  },
                  record request { offset = offset; done = done; payload = chunk },
                  ok tt,
                ))
        ])

  -- `Snapshotter::save_snapshot_data`
  unfoldable pub save_snapshot_data :
      Snapshotter → FS → Str → Option (Snapshotter × FS × Result (Unit {0}))
  save_snapshot_data s fs received = do
    lock s
    (if not (files.open_file fs s.snapshot_path)
        then some (s, fs, err file_open_failed)
        else (let (written, is_written) = files.write_all fs s.snapshot_path received in
            if not is_written
            then some (s, written, err file_write_failed)
            else (let (renamed, is_renamed) = files.rename written s.tmp_path s.snapshot_path in
                if not is_renamed
                then some (s, renamed, err file_rename_failed)
                else some (s, renamed, ok tt))))
