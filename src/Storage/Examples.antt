-- ===== src/Storage/Examples.antt =====
-- The theorems on a storage node over a disk that writes so many bytes at a time.
use vosfs.Common.{
  to_string, ℕ, zero, suc, ◌≡◌, ◌≢◌, ◌∷◌, [], refl, ap, Bool, true, false, Option, none, some, Str,
  take, length, length-take, arith, str_discrete, inr, ◌∙◌, sym,
}
use mathlib.Core.Logic.{if_neg}
use vosfs.Common.Map.{Map, find, put, find-put}
use vosfs.Api.{UploadBlockRequest, DownloadBlockRequest}
use vosfs.Storage.Defs.{
  Disk, DiskLaws, DataNode, get_block_path, wait, handle_upload_block_request,
  handle_download_block_request,
}
use vosfs.Storage.Blocks.{download-upload, download-upload_other}

abbrev Fs : Type 0
Fs = Map Str Str

abbrev bytes_of : Option Str → Str
bytes_of none = []
bytes_of (some b) = b

abbrev is_there : Option Str → Bool
is_there none = false
is_there (some b) = true

abbrev disk : ℕ → Disk Fs
disk room = record {
  exists = λ fs path. is_there (find str_discrete path fs);
  create_directories = λ fs path. (fs, true);
  create = λ fs path. (put str_discrete path [] fs, true);
  write = λ fs path bytes.
      (put str_discrete path (take room bytes) fs, some (length (take room bytes)));
  open_file = λ fs path. is_there (find str_discrete path fs);
  read_to_end = λ fs path. find str_discrete path fs;
}

take-length-take : (n : ℕ) (s : Str) → take n s ≡ take (length (take n s)) s
take-length-take zero s = refl
take-length-take (suc n) [] = refl
take-length-take (suc n) (c ∷ s) = ap (λ t. c ∷ t) (take-length-take n s)

content : Fs → Str → Str
content fs path = bytes_of (find str_discrete path fs)

content_put : (fs : Fs) (path bytes : Str) → content (put str_discrete path bytes fs) path ≡ bytes
unfolding content
content_put fs path bytes = ground (arith, find-put str_discrete path path bytes fs)

find_put_other :
    (fs : Fs) (path bytes other : Str)
    → other ≢ path
    → find str_discrete other (put str_discrete path bytes fs) ≡ find str_discrete other fs
find_put_other fs path bytes other h =
    find-put str_discrete path other bytes fs
    ∙ if_neg (str_discrete path other) (λ e. h (sym e)) _ _

disk_laws : (room : ℕ) → DiskLaws (disk room)
unfolding content
disk_laws room = record {
  content = content;
  create_empty = λ fs path e. content_put fs path [];
  write_part = λ fs path bytes n empty e. (
    ground (arith, length-take room bytes),
    content_put fs path (take room bytes)
        ∙ take-length-take room bytes
        ∙ ap (λ k. take k bytes) (ground arith),
  );
  read_all = λ fs path bytes e. ground arith;
  create_other = λ fs path other h.
      (ap is_there (find_put_other fs path [] other h), find_put_other fs path [] other h);
  write_other = λ fs path bytes other h. (
    ap is_there (find_put_other fs path (take room bytes) other h),
    find_put_other fs path (take room bytes) other h,
  );
}

abbrev any_token : Str → Bool
any_token [] = false
any_token (c ∷ s) = true

abbrev node : DataNode
node = record { id = 7; block_dir = b'd' ∷ [] }

abbrev up : UploadBlockRequest
up = record { token = 1 ∷ []; block_id = 2; ino = 3; bytes = 10 ∷ 20 ∷ 30 ∷ [] }

abbrev down : DownloadBlockRequest
down = record { token = 1 ∷ []; block_id = 2; ino = 3 }

download-upload_example :
    (handle_download_block_request
      (disk 5)
      any_token
      node
      (handle_upload_block_request (disk 5) any_token node [] up).0
      down).bytes
    ≡ up.bytes
unfolding handle_upload_block_request handle_download_block_request find put str_discrete
    get_block_path to_string
download-upload_example =
    download-upload (disk 5) (disk_laws 5) any_token node [] up down refl refl refl refl refl

download-upload_other_example :
    handle_download_block_request
      (disk 5)
      any_token
      node
      (handle_upload_block_request (disk 5) any_token node [] up).0
      (record down { block_id = 9 })
    ≡ handle_download_block_request (disk 5) any_token node [] (record down { block_id = 9 })
download-upload_other_example =
    download-upload_other (disk 5) (disk_laws 5) any_token node [] up (record down { block_id = 9 })
      (inr (λ e. omega (arith, e)))

wait_makes : wait (disk 5) any_token node [] ≡ some []
unfolding wait find str_discrete
wait_makes = refl
