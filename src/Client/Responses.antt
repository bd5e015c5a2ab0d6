-- ===== src/Client/Responses.antt =====
-- The handlers of the other responses. No result is an exception.
use vosfs.Common.{
  ◌∷◌, [], ◌++◌, List, Bool, true, false, Option, some, Str, utf8, if◌then◌else◌, ltb, ◌>>=◌, ◌==◌,
  stoull, stoll, stoi, ◌||◌, ◌&&◌,
}
use vosfs.Api.{
  DirEntry, RegisterUserResponse, DeleteUserResponse, LoginUserByNameResponse, ListDirResponse,
  MakeDirResponse,
}
use vosfs.StateMachine.Defs.{status_ok, status_not_leader}
use vosfs.Client.Defs.{
  Client, Desktop, Job, Signal, Item, UserSession, RpcStatus, emit, log, enqueue,
}
use vosfs.Client.Requests.{send_list_dir_request}
use vosfs.Client.Transfers.{redirect}

-- `a < b` on `std::string`: by bytes
unfoldable pub str_ltb : Str → Str → Bool
str_ltb s [] = false
str_ltb [] (c ∷ t) = true
str_ltb (b ∷ s) (c ∷ t) = ltb b c || b == c && str_ltb s t

-- `std::ranges::sort` by name; entries of the same name keep their order here.
unfoldable pub insert_entry : DirEntry → List DirEntry → List DirEntry
unfolding str_ltb
insert_entry entry [] = entry ∷ []
insert_entry entry (e ∷ es) =
    let rest = insert_entry entry es in
    if str_ltb e.name entry.name then e ∷ rest else entry ∷ e ∷ es

unfoldable pub sort_entries : List DirEntry → List DirEntry
unfolding insert_entry
sort_entries [] = []
sort_entries (e ∷ es) = insert_entry e (sort_entries es)

-- The entries that are directories, and those that are not.
unfoldable pub dirs_of : List DirEntry → List DirEntry
dirs_of [] = []
dirs_of (e ∷ es) = if e.is_dir then e ∷ dirs_of es else dirs_of es

unfoldable pub files_of : List DirEntry → List DirEntry
files_of [] = []
files_of (e ∷ es) = if e.is_dir then files_of es else e ∷ files_of es

module _ {FS : Type 0} where
  -- `VosfsClient::handle_register_user_response`
  unfoldable pub handle_register_user_response :
      RpcStatus → RegisterUserResponse → Client FS → Client FS
  handle_register_user_response status response c =
      if status.is_ok
      then emit (Signal.register_finished (response.status_code == status_ok) response.message)
          (log response.message c)
      else emit (Signal.register_finished false status.message) c

  -- `VosfsClient::handle_delete_user_response`
  unfoldable pub handle_delete_user_response :
      RpcStatus → DeleteUserResponse → Client FS → Client FS
  handle_delete_user_response status response c =
      if status.is_ok
      then emit (Signal.delete_finished (response.status_code == status_ok) response.message)
          (log response.message c)
      else emit (Signal.delete_finished false status.message) c

  -- `VosfsClient::handle_make_dir_response`
  unfoldable pub handle_make_dir_response :
      RpcStatus → MakeDirResponse → Client FS → Option (Client FS)
  unfolding redirect send_list_dir_request
  handle_make_dir_response status response c =
      if status.is_ok
      then if response.status_code == status_not_leader
        then redirect response.message c
        else (let listed =
              if response.status_code == status_ok
              then send_list_dir_request response.parent_path c
              else c in
            some (emit Signal.make_dir_finished (log response.message listed)))
      else some (log status.message c)

module _ {FS : Type 0} (desktop : Desktop FS) where
  -- The session that a login begins; the numbers are claims of the token.
  unfoldable pub begin_session : LoginUserByNameResponse → UserSession → Option UserSession
  unfolding stoull stoll stoi
  begin_session response session = do
    uid_text ← desktop.claim response.token (utf8 "uid")
    uid ← stoll uid_text
    role_text ← desktop.claim response.token (utf8 "role")
    role ← stoi role_text
    quota_text ← desktop.claim response.token (utf8 "quota")
    quota ← stoull quota_text
    some (record session {
      token = response.token;
      uid = uid;
      user_name = response.user_name;
      avatar = response.avatar;
      role = role;
      quota = quota;
      create_time = response.create_time;
    })

  -- `VosfsClient::handle_login_user_by_name_response`
  unfoldable pub handle_login_user_by_name_response :
      RpcStatus → LoginUserByNameResponse → Client FS → Option (Client FS)
  unfolding begin_session
  handle_login_user_by_name_response status response c =
      if status.is_ok
      then (do
        begun ←
            (if response.status_code == status_ok
              then (begin_session response c.session >>= λ session.
                  some (enqueue Job.load_transport_tasks (record c { session = session })))
              else some c)
        some (
            emit (Signal.login_finished (response.status_code == status_ok) response.message)
              (log response.message begun)))
      else some (emit (Signal.login_finished false status.message) c)

  -- What the user interface shows of the entries.
  unfoldable pub items_of : List DirEntry → List Item
  items_of [] = []
  items_of (entry ∷ entries) =
      record {
        ino = entry.ino;
        name = entry.name;
        path = entry.path;
        is_dir = entry.is_dir;
        ctime = desktop.format_time entry.ctime;
        mtime = desktop.format_time entry.mtime;
      }
      ∷ items_of entries

  -- The list of a directory: the directories by name, and then the files by name.
  unfoldable pub listed : List DirEntry → List Item
  unfolding items_of sort_entries dirs_of files_of
  listed entries =
      items_of (sort_entries (dirs_of entries)) ++ items_of (sort_entries (files_of entries))

  -- `VosfsClient::handle_list_dir_response`
  unfoldable pub handle_list_dir_response :
      RpcStatus → ListDirResponse → Client FS → Option (Client FS)
  unfolding redirect listed
  handle_list_dir_response status response c =
      if status.is_ok
      then if response.status_code == status_not_leader
        then redirect response.message c
        else if response.status_code == status_ok
        then some (
            log response.message
              (emit (Signal.list_dir_finished response.path (listed response.dir_entries)) c))
        else some (log response.message c)
      else some (log status.message c)
