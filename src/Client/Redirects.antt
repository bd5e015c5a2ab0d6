-- ===== src/Client/Redirects.antt =====
-- The client and a node of the cluster that is not its leader.
use vosfs.Common.{
  ℕ, ◌≡◌, refl, ◌<◌, List, true, false, Option, none, some, Str, utf8, arith, u64_mod,
  stoull-to_string, stoull-empty, subst,
}
use vosfs.Api.{BlockInfo, MakeDirResponse, UploadFileResponse, PrepareUploadFileResponse}
use vosfs.StateMachine.Defs.{status_not_leader}
use vosfs.Node.Defs.{World, Node, is_leader}
use vosfs.Node.Clients.{
  Outcome, leader_name, make_make_dir_response, make_prepare_upload_file_response,
  make_upload_file_response, handle_list_dir_request, handle_make_dir_request,
  handle_upload_file_request, handle_prepare_upload_file_request,
  handle_prepare_download_file_request,
}
use vosfs.Client.Defs.{Client, Desktop, RpcStatus, log}
use vosfs.Client.Responses.{handle_list_dir_response, handle_make_dir_response}
use vosfs.Client.Transfers.{
  redirect, handle_prepare_upload_file_response, handle_prepare_download_file_response,
  handle_upload_file_response,
}

-- The client after an answer of a node that knows the leader, or does not: it has the leader of the
-- node and a line in its log, or the handler has thrown.
abbrev pub Redirected : {FS : Type 0} → Option ℕ → Client FS → Option (Client FS) → Type 0
Redirected none c result = result ≡ none
Redirected (some id) c result =
    result ≡ some (log (utf8 "重定向到集群领导者，请重试") (record c { leader_id = id }))

-- A leader that a node knows has a number of 64 bits.
abbrev pub IsKnown : Option ℕ → Type 0
IsKnown none = Unit
IsKnown (some id) = id < u64_mod

redirect-leader_name :
    {FS : Type 0} (id : Option ℕ) (c : Client FS)
    → IsKnown id
    → Redirected id c (redirect (leader_name id) c)
unfolding redirect
redirect-leader_name none c h = ground (arith, stoull-empty)
redirect-leader_name (some id) c h = rw (stoull-to_string id h) refl

module _ {DB FS Local : Type 0} (w : World DB FS) (n : Node DB FS) (desktop : Desktop Local) where
  -- A node that is not the leader answers each of the five requests of a client, with a valid token,
  -- so that the client takes the leader that the node knows for its leader from then on; where the
  -- node knows none, the handler of the client throws.
  pub redirect-requests :
      (c : Client Local) (message : Str) (token path name : Str) (blocks : List BlockInfo)
      (now handle ino : ℕ)
      → w.verify_token token ≡ true
      → is_leader n.role ≡ false
      → IsKnown n.leader_id
      → (let status : RpcStatus = record { is_ok = true; message = message } in
          let list = handle_list_dir_request w (record { token = token; path = path }) n in
          let made =
            handle_make_dir_request w now handle
              (record { token = token; parent_path = path; name = name; timestamp = 0 })
              n in
          let prepared =
            handle_prepare_upload_file_request w
              (record { token = token; local_path = name; remote_path = path; blocks = blocks })
              n in
          let uploaded =
            handle_upload_file_request w handle
              (record { token = token; ino = ino; path = path; blocks = blocks })
              n in
          let found =
            handle_prepare_download_file_request w
              (record { token = token; local_path = name; remote_path = path })
              n in
          Redirected n.leader_id c (handle_list_dir_response desktop status list c)
          × ((reply : MakeDirResponse) × (made ≡ (n, Outcome.replied reply))
              × Redirected n.leader_id c (handle_make_dir_response status reply c))
          × ((reply : PrepareUploadFileResponse) × (prepared ≡ some (n, reply))
              × Redirected n.leader_id c (handle_prepare_upload_file_response status reply c))
          × ((reply : UploadFileResponse) × (uploaded ≡ (n, Outcome.replied reply))
              × Redirected n.leader_id c (handle_upload_file_response status reply c))
          × Redirected n.leader_id c (handle_prepare_download_file_response status found c))
  unfolding handle_list_dir_request handle_list_dir_response handle_make_dir_request
      handle_make_dir_response handle_prepare_upload_file_request
      handle_prepare_upload_file_response handle_upload_file_request handle_upload_file_response
      handle_prepare_download_file_request handle_prepare_download_file_response
  redirect-requests c message token path name blocks now handle ino valid other known =
      let sent = redirect-leader_name n.leader_id c known in
      let follows =
        λ (result : Option (Client Local)) (e : redirect (leader_name n.leader_id) c ≡ result).
          subst (Redirected n.leader_id c) e sent in
      (
        follows _ (ground arith),
        (
          make_make_dir_response status_not_leader (leader_name n.leader_id),
          ground arith,
          follows _ (ground arith),
        ),
        (
          make_prepare_upload_file_response status_not_leader (leader_name n.leader_id),
          ground arith,
          follows _ (ground arith),
        ),
        (
          make_upload_file_response status_not_leader (leader_name n.leader_id) ino,
          ground arith,
          follows _ (ground arith),
        ),
        follows _ (ground arith),
      )
