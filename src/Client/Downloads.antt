-- ===== src/Client/Downloads.antt =====
-- A download comes to its end: the blocks of a file, in any order.
use vosfs.Common.{
  ◌+◌, ◌≡◌, ◌≤◌, ◌<◌, refl, ap, ◌∙◌, sym, subst, ◌∷◌, [], List, none, some, Str, arith, u64_mod,
  length, All, All-map, All-zip, ◌⊎◌, inl, inr, if◌then◌else◌, leb, ℕ_discrete, length-take,
  length-drop, drop,
}
use vosfs.Common.Map.{find, put, erase, find-put, find-erase}
use vosfs.Api.{BlockInfo}
use vosfs.Client.Defs.{Client, Desktop, BlockTask, TransportTask}
use vosfs.Client.Blocks.{confirm_download, handle_download_block_response}
use vosfs.Client.Tiling.{Tiles, piece}
use vosfs.Client.Writes.{
  WriteLaws, IsWritten, IsWritten-all, write_at-IsWritten, write_at-keeps, length-write_at,
  write_at,
}
use vosfs.Client.Deliveries.{here, next, Succeeds, Downloads, handled, Knows-confirm_download, IsAt}

module _ {FS : Type 0} (desktop : Desktop FS) (laws : WriteLaws desktop) (content : Str)
    (task : TransportTask) (room : task.total_blocks < u64_mod) where
  -- What is known after some answers: the blocks are in the local file, which is no longer than the
  -- content, and the task counts them until the last one, and is gone then.
  record Received (received : List BlockInfo) (c : Client FS) : Type 0 where
    written : All (IsWritten content (laws.content c.fs task.local_path)) received
    fits : All (λ (b : BlockInfo). b.offset + b.size ≤ length content) received
    short : length (laws.content c.fs task.local_path) ≤ length content
    present : length received < task.total_blocks → IsAt task c.download_tasks (length received)
    gone : length received ≡ task.total_blocks → find ℕ_discrete task.ino c.download_tasks ≡ none

  -- The local file after an answer.
  file_after :
      (b : BlockInfo) (c c' : Client FS) (bytes : Str)
      → (0 < b.size) × (b.offset + b.size ≤ length content)
      → bytes ≡ piece content b
      → Succeeds desktop c.fs task.local_path b bytes
      → c'.fs
        ≡ (desktop.write_all
            (desktop.open_write c.fs task.local_path).0
            task.local_path
            b.offset
            bytes).0
      → laws.content c'.fs task.local_path
        ≡ write_at b.offset (piece content b) (laws.content c.fs task.local_path)
  file_after b c c' bytes (more, fits) same (opens, seeks, writes) after =
      let path = task.local_path in
      let opened = (desktop.open_write c.fs path).0 in
      let size : 0 < length bytes = omega (
        arith,
        ap length same,
        length-take b.size (drop b.offset content),
        length-drop b.offset content,
      ) in
      ap (λ fs. laws.content fs path) after
      ∙ laws.write_puts opened path b.offset bytes size writes
      ∙ ap (λ d. write_at b.offset d (laws.content opened path)) same
      ∙ ap (write_at b.offset (piece content b)) (laws.open_keeps c.fs path opens)

  Received-next :
      (received : List BlockInfo) (c c' : Client FS) (b : BlockInfo) (bytes : Str)
      (block : BlockTask) (at : IsAt task c.download_tasks (length received))
      → Received received c
      → length received < task.total_blocks
      → find ℕ_discrete b.id at.now.blocks ≡ some block
      → (0 < b.size) × (b.offset + b.size ≤ length content)
      → bytes ≡ piece content b
      → Succeeds desktop c.fs task.local_path b bytes
      → c'.fs
        ≡ (desktop.write_all
            (desktop.open_write c.fs task.local_path).0
            task.local_path
            b.offset
            bytes).0
      → (let confirmed = confirm_download b.id block at.now in
          let tasks =
            put ℕ_discrete task.ino confirmed (put ℕ_discrete task.ino at.now c.download_tasks) in
          c'.download_tasks ≡ (
            if leb confirmed.total_blocks confirmed.done_blocks
            then erase ℕ_discrete confirmed.ino tasks
            else tasks))
      → Received (b ∷ received) c'
  unfolding confirm_download
  Received-next received c c' b bytes block at r more known fits same calls after tasks_after =
      let file = laws.content c.fs task.local_path in
      let new_file = file_after b c c' bytes fits same calls after in
      let new = confirm_download b.id block at.now in
      let tasks = put ℕ_discrete task.ino at.now c.download_tasks in
      record {
        written =
            subst (λ s. All (IsWritten content s) (b ∷ received)) (sym new_file)
              (
                write_at-IsWritten content file b fits.1,
                All-zip (λ (old : BlockInfo). old.offset + old.size ≤ length content)
                    (IsWritten content file)
                    (IsWritten content (write_at b.offset (piece content b) file)) received
                    (λ old f w. write_at-keeps content file b old fits.1 f w) r.fits r.written,
              );
        fits = (fits.1, r.fits);
        short = omega (
          arith,
          ap length new_file,
          length-write_at b.offset (piece content b) file,
          r.short,
          length-take b.size (drop b.offset content),
        );
        present = λ still. record {
          now = new;
          found = ground (
            arith,
            tasks_after,
            at.same_total,
            at.done,
            find-put ℕ_discrete task.ino task.ino new tasks,
          );
          same_ino = at.same_ino;
          same_path = at.same_path;
          same_total = at.same_total;
          done = omega (arith, at.done);
          knows =
              λ other k. Knows-confirm_download b.id block at.now other known (at.knows other k);
        };
        gone = λ last. ground (
          arith,
          tasks_after,
          at.same_total,
          at.done,
          at.same_ino,
          find-erase ℕ_discrete task.ino task.ino (put ℕ_discrete task.ino new tasks),
        );
      }

  Downloads-Received :
      (c : Client FS)
      → IsAt task c.download_tasks 0
      → 0 < task.total_blocks
      → length (laws.content c.fs task.local_path) ≤ length content
      → {received : List BlockInfo} {c' : Client FS} → Downloads desktop content task c received c'
      → length received ≤ task.total_blocks
      → Received received c'
  Downloads-Received c start some_block short here few = record {
    written = tt;
    fits = tt;
    short = short;
    present = λ h. start;
    gone = λ h. absurd (omega arith);
  }
  Downloads-Received c start some_block short
        (next {received = received} {c' = c'} status response b run is_ok ok same_ino same_id same
          known fits calls)
        few =
      let r = Downloads-Received c start some_block short run (omega arith) in
      let at = r.present (omega arith) in
      let (block, found, offset) = at.knows b known in
      let done =
        handled desktop status response b at.now block c' task.ino task.local_path is_ok ok same_ino
          at.same_path at.found same_id found offset calls in
      Received-next received c' (handle_download_block_response desktop status response c') b
        response.bytes block at r (omega arith) found fits same calls done.0 done.1

-- The list holds the block.
abbrev pub Holds : BlockInfo → List BlockInfo → Type 0
Holds b [] = ⊥
Holds b (x ∷ xs) = (b ≡ x) ⊎ Holds b xs

All-Holds :
    (P : BlockInfo → Type 0) (b : BlockInfo) (xs : List BlockInfo) → All P xs → Holds b xs → P b
All-Holds P b [] h e = absurd e
All-Holds P b (x ∷ xs) h (inl e) = subst P (sym e) h.0
All-Holds P b (x ∷ xs) h (inr e) = All-Holds P b xs h.1 e

module _ {FS : Type 0} (desktop : Desktop FS) (laws : WriteLaws desktop) where
  -- The blocks tile the content, at least one and fewer than the last 64-bit number, the client
  -- has a task for them of which no block is done, and the local file is no longer than the
  -- content. Then as many successful answers for that task as there are blocks, of which each
  -- carries the bytes of a block that the task knows at its offset, and every block comes once,
  -- in any order, and at each of which the local file is opened, sought and written without an
  -- error, leave the content in the local file, and the task is gone.
  pub Downloads-content :
      (content : Str) (blocks received : List BlockInfo) (task : TransportTask) (c c' : Client FS)
      → Tiles 0 0 (length content) blocks
      → find ℕ_discrete task.ino c.download_tasks ≡ some task
      → (task.done_blocks ≡ 0) × (task.total_blocks ≡ length blocks)
      → (0 < length blocks) × (length blocks < u64_mod)
      → length (laws.content c.fs task.local_path) ≤ length content
      → Downloads desktop content task c received c'
      → length received ≡ length blocks
      → All (λ b. Holds b received) blocks
      → (laws.content c'.fs task.local_path ≡ content)
        × (find ℕ_discrete task.ino c'.download_tasks ≡ none)
  Downloads-content content blocks received task c c' tiles found counts some_block short run size
        every =
      let start : IsAt task c.download_tasks 0 = record {
        now = task;
        found = found;
        same_ino = refl;
        same_path = refl;
        same_total = refl;
        done = counts.0;
        knows = λ b k. k;
      } in
      let r =
        Downloads-Received desktop laws content task (omega arith) c start (omega arith) short run
          (omega arith) in
      let file = laws.content c'.fs task.local_path in
      (
        IsWritten-all content file blocks tiles
            (All-map (λ b. Holds b received) (IsWritten content file) blocks
              (λ b e. All-Holds (IsWritten content file) b received r.written e) every)
            r.short,
        r.gone (omega arith),
      )
