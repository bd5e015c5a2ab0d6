-- ===== src/Storage/Blocks.antt =====
-- What a storage node answers, and what becomes of its files.
use vosfs.Common.{
  ℕ, ◌≡◌, ◌≢◌, ◌<◌, ◌⊎◌, ◌↔◌, ◌≤◌, inl, inr, ap, ◌∙◌, refl, [], Bool, Str, true, false, some, take,
  take-length, length, length-take, arith, Option-cases,
}
use vosfs.Api.{UploadBlockRequest, DownloadBlockRequest}
use vosfs.StateMachine.Defs.{status_ok, status_permission_denied}
use vosfs.Storage.Defs.{
  Disk, DiskLaws, DataNode, get_block_path, handle_upload_block_request,
  handle_download_block_request,
}
use vosfs.Storage.Paths.{get_block_path-injective}

module _ {FS : Type 0} (disk : Disk FS) (verify_token : Str → Bool) where
  -- The file after an upload that was answered with success, and how much was written.
  upload_writes :
      (node : DataNode) (fs : FS) (request : UploadBlockRequest)
      → (handle_upload_block_request disk verify_token node fs request).1.status_code ≡ status_ok
      → (let path = get_block_path node request.ino request.block_id in
          let created = (disk.create fs path).0 in
          (n : ℕ) × ((disk.create fs path).1 ≡ true)
          × ((disk.write created path request.bytes).1 ≡ some n)
          × ((handle_upload_block_request disk verify_token node fs request).0
              ≡ (disk.write created path request.bytes).0))
  unfolding handle_upload_block_request
  upload_writes node fs request e =
      let path = get_block_path node request.ino request.block_id in
      elim (Option-cases (disk.write (disk.create fs path).0 path request.bytes).1) [
        | inl failed ↦ absurd (ground arith)
        | inr (n, written) ↦ (n, ground arith, written, ground arith)
      ]

  -- A download that is answered with success carries what the file is read as.
  download_reads :
      (node : DataNode) (fs : FS) (request : DownloadBlockRequest)
      → (handle_download_block_request disk verify_token node fs request).status_code ≡ status_ok
      → disk.read_to_end fs (get_block_path node request.ino request.block_id)
        ≡ some (handle_download_block_request disk verify_token node fs request).bytes
  unfolding handle_download_block_request
  download_reads node fs request e = ground arith

  -- A request whose token does not pass is refused as not permitted, and no other request is: an
  -- upload that is refused so leaves the files as they are, and a download carries no data.
  pub refused-token :
      (node : DataNode) (fs : FS) (up : UploadBlockRequest) (down : DownloadBlockRequest)
      → (let (written, uploaded) = handle_upload_block_request disk verify_token node fs up in
          let downloaded = handle_download_block_request disk verify_token node fs down in
          ((uploaded.status_code ≡ status_permission_denied) ↔ (verify_token up.token ≡ false))
          × ((downloaded.status_code ≡ status_permission_denied)
              ↔ (verify_token down.token ≡ false))
          × (verify_token up.token ≡ false → written ≡ fs)
          × (verify_token down.token ≡ false → downloaded.bytes ≡ []))
  unfolding handle_upload_block_request handle_download_block_request
  refused-token node fs up down = (
    (λ h. ground arith, λ h. ground arith),
    (λ h. ground arith, λ h. ground arith),
    λ h. ground arith,
    λ h. ground arith,
  )

module _ {FS : Type 0} (disk : Disk FS) (laws : DiskLaws disk) (verify_token : Str → Bool) where
  -- What a download carries after an upload of the same block.
  read_back :
      (node : DataNode) (fs : FS) (up : UploadBlockRequest) (down : DownloadBlockRequest) (n : ℕ)
      → down.ino ≡ up.ino
      → down.block_id ≡ up.block_id
      → (let path = get_block_path node up.ino up.block_id in
          (disk.write (disk.create fs path).0 path up.bytes).1 ≡ some n)
      → (handle_upload_block_request disk verify_token node fs up).1.status_code ≡ status_ok
      → (let fs' = (handle_upload_block_request disk verify_token node fs up).0 in
          let answer = handle_download_block_request disk verify_token node fs' down in
          answer.status_code ≡ status_ok → (n ≤ length up.bytes) × (answer.bytes ≡ take n up.bytes))
  read_back node fs up down n same_ino same_id wrote uploaded downloaded =
      let path = get_block_path node up.ino up.block_id in
      let created = (disk.create fs path).0 in
      let fs' = (handle_upload_block_request disk verify_token node fs up).0 in
      let (m, is_created, written, after) = upload_writes disk verify_token node fs up uploaded in
      let part =
        laws.write_part created path up.bytes n (laws.create_empty fs path is_created) wrote in
      let same : get_block_path node down.ino down.block_id ≡ path = rw (same_ino, same_id) refl in
      let read : disk.read_to_end fs' path
          ≡ some (handle_download_block_request disk verify_token node fs' down).bytes =
        rw same at (download_reads disk verify_token node fs' down downloaded) in
      (part.0, laws.read_all fs' path _ read ∙ ap (λ f. laws.content f path) after ∙ part.1)

  -- An upload that is answered with success, and of which the file system wrote all bytes, is read
  -- back: where a download of the same block of the same inode is then answered with success, it
  -- carries exactly the bytes of the upload.
  pub download-upload :
      (node : DataNode) (fs : FS) (up : UploadBlockRequest) (down : DownloadBlockRequest)
      → down.ino ≡ up.ino
      → down.block_id ≡ up.block_id
      → (let path = get_block_path node up.ino up.block_id in
          (disk.write (disk.create fs path).0 path up.bytes).1 ≡ some (length up.bytes))
      → (let (fs', uploaded) = handle_upload_block_request disk verify_token node fs up in
          let downloaded = handle_download_block_request disk verify_token node fs' down in
          uploaded.status_code ≡ status_ok
          → downloaded.status_code ≡ status_ok
          → downloaded.bytes ≡ up.bytes)
  download-upload node fs up down same_ino same_id wrote uploaded downloaded =
      (read_back node fs up down (length up.bytes) same_ino same_id wrote uploaded downloaded).1
      ∙ take-length up.bytes

  upload_of_part :
      (node : DataNode) (fs : FS) (up : UploadBlockRequest) (n : ℕ)
      → verify_token up.token ≡ true
      → (let path = get_block_path node up.ino up.block_id in
          ((disk.create fs path).1 ≡ true)
          × ((disk.write (disk.create fs path).0 path up.bytes).1 ≡ some n))
      → (handle_upload_block_request disk verify_token node fs up).1.status_code ≡ status_ok
  unfolding handle_upload_block_request
  upload_of_part node fs up n valid (is_created, wrote) = ground arith

  -- Where the file system writes only a part of the bytes of an upload with a valid token into the
  -- file that it made, the upload is answered with success all the same, and a download of the same
  -- block of the same inode that is then answered with success carries less than the upload did.
  pub upload-short :
      (node : DataNode) (fs : FS) (up : UploadBlockRequest) (down : DownloadBlockRequest) (n : ℕ)
      → down.ino ≡ up.ino
      → down.block_id ≡ up.block_id
      → verify_token up.token ≡ true
      → (let path = get_block_path node up.ino up.block_id in
          ((disk.create fs path).1 ≡ true)
          × ((disk.write (disk.create fs path).0 path up.bytes).1 ≡ some n))
      → n < length up.bytes
      → (let (fs', uploaded) = handle_upload_block_request disk verify_token node fs up in
          let downloaded = handle_download_block_request disk verify_token node fs' down in
          (uploaded.status_code ≡ status_ok)
          × (downloaded.status_code ≡ status_ok → length downloaded.bytes < length up.bytes))
  upload-short node fs up down n same_ino same_id valid (is_created, wrote) short =
      let uploaded = upload_of_part node fs up n valid (is_created, wrote) in
      (
        uploaded,
        λ downloaded.
            let (fits, part) =
              read_back node fs up down n same_ino same_id wrote uploaded downloaded in
            omega (arith, ap length part, length-take n up.bytes),
      )

  upload_other :
      (node : DataNode) (fs : FS) (up : UploadBlockRequest) (other : Str)
      → other ≢ get_block_path node up.ino up.block_id
      → (let fs' = (handle_upload_block_request disk verify_token node fs up).0 in
          (disk.open_file fs' other ≡ disk.open_file fs other)
          × (disk.read_to_end fs' other ≡ disk.read_to_end fs other))
  unfolding handle_upload_block_request
  upload_other node fs up other h =
      let path = get_block_path node up.ino up.block_id in
      ground (
        arith,
        laws.create_other fs path other h,
        laws.write_other (disk.create fs path).0 path up.bytes other h,
      )

  -- An upload, however it is answered, leaves every other block of the node as it is: a download of
  -- another block number or of another inode is answered as before.
  pub download-upload_other :
      (node : DataNode) (fs : FS) (up : UploadBlockRequest) (down : DownloadBlockRequest)
      → (down.ino ≢ up.ino) ⊎ (down.block_id ≢ up.block_id)
      → handle_download_block_request disk verify_token node
          (handle_upload_block_request disk verify_token node fs up).0
          down
        ≡ handle_download_block_request disk verify_token node fs down
  unfolding handle_download_block_request
  download-upload_other node fs up down differs =
      let path = get_block_path node down.ino down.block_id in
      let elsewhere : path ≢ get_block_path node up.ino up.block_id = λ e.
        let (same_ino, same_id) =
          get_block_path-injective node down.ino up.ino down.block_id up.block_id e in
        elim differs [ inl h ↦ h same_ino | inr h ↦ h same_id ] in
      ground (arith, upload_other node fs up path elsewhere)
