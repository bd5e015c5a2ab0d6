-- ===== src/Client/Samples.antt =====
-- A desktop whose files are kept in memory, and a client on it.
use vosfs.Common.{
  ℕ, ◌≡◌, refl, ◌∷◌, [], Bool, true, false, Option, none, some, Str, ◌⊎◌, inl, inr, length, take,
  drop, str_discrete, arith,
}
use vosfs.Common.Map.{Map, find, put, find-put}
use vosfs.Client.Defs.{Client, Desktop, RpcStatus, default_session}
use vosfs.Client.Writes.{write_at, WriteLaws}

abbrev pub Fs : Type 0
Fs = Map Str Str

abbrev bytes_of : Option Str → Str
bytes_of none = []
bytes_of (some b) = b

abbrev pub content : Fs → Str → Str
content fs path = bytes_of (find str_discrete path fs)

abbrev is_there : Option Str → Bool
is_there none = false
is_there (some b) = true

abbrev missing_text : Option Str → Option Str
missing_text none = some []
missing_text (some b) = none

abbrev size_of : Option Str → Str ⊎ ℕ
size_of none = inl []
size_of (some b) = inr (length b)

-- The claims of a token are given.
abbrev pub desktop : (Str → Str → Option Str) → Desktop Fs
desktop claim = record {
  exists = λ fs path. is_there (find str_discrete path fs);
  metadata = λ fs path. size_of (find str_discrete path fs);
  open_file = λ fs path. missing_text (find str_discrete path fs);
  seek = λ fs path offset. true;
  read = λ fs path offset size. inr (take size (drop offset (content fs path)));
  open_write = λ fs path. (fs, none);
  write_all = λ fs path offset bytes.
      (put str_discrete path (write_at offset bytes (content fs path)) fs, none);
  save = λ fs path text. put str_discrete path text fs;
  load = content;
  claim = claim;
  sha256 = λ s. s;
  format_time = λ t. [];
}

pub content-put :
    (fs : Fs) (path bytes : Str) → content (put str_discrete path bytes fs) path ≡ bytes
content-put fs path bytes = ground (arith, find-put str_discrete path path bytes fs)

unfoldable pub write_laws : (claim : Str → Str → Option Str) → WriteLaws (desktop claim)
write_laws claim = record {
  content = content;
  open_keeps = λ fs path e. refl;
  write_puts =
      λ fs path offset bytes more e. content-put fs path (write_at offset bytes (content fs path));
}

abbrev pub no_claims : Str → Str → Option Str
no_claims token name = none

abbrev pub client : Client Fs
client = record {
  is_shutdown = false;
  session = default_session;
  leader_id = 1;
  raft_clients = 1 ∷ 2 ∷ [];
  data_clients = 7 ∷ 8 ∷ [];
  tasks = [];
  upload_tasks = [];
  download_tasks = [];
  fs = [];
  signals = [];
  calls = [];
}

abbrev pub done_ok : RpcStatus
done_ok = record { is_ok = true; message = [] }
