-- ===== src/Client/Requests.antt =====
-- The coroutines that send requests. No result is an exception
-- or a loop that goes on.
use vosfs.Common.{
  ℕ, suc, ◌∷◌, [], ◌++◌, List, Bool, Option, none, some, Str, utf8, ite, if◌then◌else◌, to_string,
  length, ◌>>=◌, ◌==◌, ℤ, str_discrete, ℕ_discrete, find_last_of, drop, suc, inl, inr,
}
use vosfs.Common.Map.{Map, find, values}
use vosfs.Api.{BlockInfo}
use vosfs.Client.Splitting.{split_file}
use vosfs.Client.Defs.{Client, Desktop, Call, BlockTask, log, call, member}

-- The keys of a map.
abbrev pub keys : Map ℕ Bool → List ℕ
keys [] = []
keys ((k, v) ∷ m) = k ∷ keys m

abbrev pub blocks_of : List BlockTask → List BlockInfo
blocks_of [] = []
blocks_of (block ∷ blocks) =
    record {
      id = block.id;
      ino = block.ino;
      offset = block.offset;
      size = block.size;
      data_node_id = keys block.data_node_ids;
    }
    ∷ blocks_of blocks

-- The path of a file in the current directory.
unfoldable pub remote_path_of : Str → Str → Str
unfolding str_discrete
remote_path_of current_dir file_name =
    ite (str_discrete current_dir (b'/' ∷ [])) (current_dir ++ file_name)
      (current_dir ++ b'/' ∷ file_name)

module _ {FS : Type 0} where
  -- The line of the log for a node that is not configured.
  abbrev pub missing_node : ℕ → Client FS → Client FS
  missing_node id = log (utf8 "请求失败，节点 " ++ to_string id ++ utf8 " 不存在，请检查集群配置")

  -- A request to the node that the client takes for the leader.
  unfoldable pub call_leader : (ℕ → Call) → Client FS → Client FS
  call_leader request c =
      if member c.leader_id c.raft_clients
      then call (request c.leader_id) c
      else missing_node c.leader_id c

  -- A request to a storage node. The line of the log names the leader.
  unfoldable pub call_data_node : ℕ → (ℕ → Call) → Client FS → Client FS
  call_data_node data_node_id request c =
      if member data_node_id c.data_clients
      then call (request data_node_id) c
      else missing_node c.leader_id c

  -- `VosfsClient::send_list_dir_request`
  unfoldable pub send_list_dir_request : Str → Client FS → Client FS
  unfolding call_leader
  send_list_dir_request path c =
      call_leader (λ id. Call.ls id (record { token = c.session.token; path = path })) c

  -- `VosfsClient::send_make_dir_request`
  unfoldable pub send_make_dir_request : Str → Str → Client FS → Client FS
  unfolding call_leader
  send_make_dir_request parent_path name c =
      call_leader
        (λ id. Call.mkdir id (record {
          token = c.session.token;
          parent_path = parent_path;
          name = name;
          timestamp = 0;
        }))
        c

  -- `VosfsClient::send_upload_file_request`
  unfoldable pub send_upload_file_request : ℕ → Client FS → Client FS
  unfolding find call_leader
  send_upload_file_request ino c = elim (find ℕ_discrete ino c.upload_tasks) [
    | none ↦ c
    | some task ↦
        call_leader
          (λ id. Call.upload_file id (record {
            token = c.session.token;
            ino = ino;
            path = task.remote_path;
            blocks = blocks_of (values task.blocks);
          }))
          c
  ]

  -- `VosfsClient::send_download_block_request`
  unfoldable pub send_download_block_request : ℕ → ℕ → ℕ → Client FS → Client FS
  unfolding call_data_node
  send_download_block_request block_id ino data_node_id c =
      call_data_node data_node_id
        (λ id.
          Call.download_block id
            (record { token = c.session.token; block_id = block_id; ino = ino }))
        c

module _ {FS : Type 0} (desktop : Desktop FS) where
  -- `VosfsClient::send_register_user_request`
  unfoldable pub send_register_user_request : Str → Str → ℤ → Str → Client FS → Client FS
  send_register_user_request user_name password role admin_secret = call (
      Call.register (record {
        user_name = user_name;
        password = desktop.sha256 password;
        role = role;
        admin_secret = admin_secret;
      }))

  -- `VosfsClient::send_delete_user_request`
  unfoldable pub send_delete_user_request : Str → Client FS → Client FS
  send_delete_user_request password c =
      call (Call.delete (record { token = c.session.token; password = desktop.sha256 password })) c

  -- `VosfsClient::send_login_user_by_name_request`
  unfoldable pub send_login_user_by_name_request : Str → Str → ℤ → Client FS → Client FS
  send_login_user_by_name_request user_name password role = call (
      Call.login_by_name
        (record { user_name = user_name; password = desktop.sha256 password; role = role }))

  -- `VosfsClient::send_prepare_upload_file_request`
  unfoldable pub send_prepare_upload_file_request : Str → Str → Client FS → Option (Client FS)
  unfolding find_last_of split_file remote_path_of call_leader
  send_prepare_upload_file_request local_path current_dir c =
      elim (desktop.metadata c.fs local_path) [
        | inl error ↦ some (log (utf8 "获取文件 " ++ local_path ++ utf8 " 元数据失败：" ++ error) c)
        | inr file_size ↦
            if file_size == 0
            then some (log (utf8 "无法上传空文件 " ++ local_path) c)
            else elim (find_last_of b'/' local_path) [
              | none ↦ some (log (utf8 "上传文件无效：当前目录无效") c)
              | some pos ↦ do
                blocks ← split_file file_size
                some (
                    call_leader
                      (λ id. Call.prepare_upload_file id (record {
                        token = c.session.token;
                        local_path = local_path;
                        remote_path = remote_path_of current_dir (drop (suc pos) local_path);
                        blocks = blocks;
                      }))
                      c)
            ]
      ]

  -- `VosfsClient::send_upload_block_request`
  unfoldable pub send_upload_block_request : Str → ℕ → ℕ → ℕ → ℕ → ℕ → Client FS → Client FS
  unfolding call_data_node
  send_upload_block_request local_path block_id ino offset size data_node_id c =
      elim (desktop.open_file c.fs local_path) [
        | some error ↦ log (utf8 "文件 " ++ local_path ++ utf8 " 打开失败: " ++ error) c
        | none ↦
            if desktop.seek c.fs local_path offset
            then elim (desktop.read c.fs local_path offset size) [
              | inl error ↦ log (utf8 "文件读取失败: " ++ error) c
              | inr bytes ↦
                  if length bytes == 0
                  then log (utf8 "文件读取到末尾，无数据") c
                  else call_data_node data_node_id
                      (λ id. Call.upload_block id (record {
                        token = c.session.token;
                        block_id = block_id;
                        ino = ino;
                        bytes = bytes;
                      }))
                      c
            ]
            else log (utf8 "文件 seek 失败 offset=" ++ to_string offset) c
      ]

  -- `VosfsClient::send_prepare_download_file_request`
  unfoldable pub send_prepare_download_file_request : Str → Str → Client FS → Client FS
  unfolding call_leader
  send_prepare_download_file_request local_path remote_path c =
      if desktop.exists c.fs local_path
      then log (utf8 "文件已存在") c
      else call_leader
          (λ id. Call.prepare_download_file id (record {
            token = c.session.token;
            local_path = local_path;
            remote_path = remote_path;
          }))
          c
