-- ===== src/Auth/Defs.antt =====
-- The methods of `AuthNode`. SQLite, the tokens and the clock are parameters.
use vosfs.Common.{
  ℕ, ◌*◌, [], Bool, true, false, Option, none, some, Str, utf8, not, ite, if◌then◌else◌, empty,
  ◌||◌, ◌&&◌, ◌>>=◌, ℤ, pos, negsuc, ◌==◌, int_to_string, stoll, str_discrete,
}
use vosfs.Api.{
  RegisterUserRequest, RegisterUserResponse, DeleteUserRequest, DeleteUserResponse,
  LoginUserByNameRequest, LoginUserByNameResponse, user_enabled,
}
use vosfs.StateMachine.Defs.{
  status_ok, status_invalid_argument, status_internal, status_permission_denied,
}

-- A row of the table `user`.
pub record User : Type 0 where
  pub uid : ℤ
  pub user_name : Str
  pub avatar : Str
  pub password : Str
  pub role : ℤ
  pub status : ℤ
  pub quota : ℤ
  pub create_time : ℕ
  pub modify_time : ℕ
  pub last_access_time : ℕ
  pub last_access_ip : Str

-- The statements of the node.
pub data Statement : Type 0 where
  -- `SELECT 1 FROM user WHERE user_name = ? LIMIT 1;`
  select_name : Statement
  -- `INSERT INTO user (...) VALUES (?, '', ?, ?, ?, ?, ?, ?, ?, ?);`
  insert_user : Statement
  -- `DELETE FROM user WHERE uid = ? AND password = ?;`
  delete_account : Statement
  -- `SELECT uid, avatar, status, quota, create_time FROM user
  -- WHERE user_name = ? AND password = ? AND role = ? LIMIT 1;`
  select_login : Statement
  -- `UPDATE user SET last_access_time = ?, last_access_ip = ? WHERE uid = ?`
  update_access : Statement

-- What the node uses of SQLite, of the tokens and of the clock.
pub record Services (DB : Type 0) : Type 0 where
  -- `sqlite3_prepare_v2(...) == SQLITE_OK`
  pub prepare : DB → Statement → Bool
  -- `sqlite3_step(...) == SQLITE_ROW` of `select_name`
  pub step_name : DB → Str → Bool
  -- `sqlite3_step(...)` of the others, true for `SQLITE_DONE`; the values in the order of the text,
  -- the new row without its uid
  pub step_insert : DB → User → DB × Bool
  pub step_delete : DB → ℤ → Str → DB × Bool
  pub step_update : DB → ℕ → Str → ℤ → DB × Bool
  -- the row of `select_login`, if there is one
  pub step_login : DB → Str → Str → ℤ → Option User
  -- `verifier.verify(jwt::decode(token))`, and the claim of a token as text; no result is the exception
  pub verify : Str → Bool
  pub claim : Str → Str → Option Str
  -- `jwt::create()...sign(...)` at a time, with the claims `uid`, `role` and `quota`
  pub sign : ℕ → Str → Str → Str → Str
  pub format_time : ℕ → Str

-- `User_Role_IsValid` and `User_Status_IsValid`
abbrev pub role_is_valid : ℤ → Bool
role_is_valid (pos n) = n == 0 || n == 1
role_is_valid (negsuc n) = false

abbrev pub is_admin : ℤ → Bool
is_admin (pos n) = n == 0
is_admin (negsuc n) = false

-- The status is valid and neither `kDisabled` nor `kDeleted`.
abbrev pub status_is_enabled : ℤ → Bool
status_is_enabled (pos n) = n == 0
status_is_enabled (negsuc n) = false

-- `DEFAULT_USER_QUOTA_BYTES` and `DEFAULT_ADMIN_SECRET`
abbrev pub default_user_quota_bytes : ℕ
default_user_quota_bytes = 100 * 1024 * 1024 * 1024

unfoldable pub default_admin_secret : Str
unfolding utf8
default_admin_secret = utf8 "123456"

-- A user as `register` makes it; the database chooses the uid.
abbrev pub new_user : RegisterUserRequest → ℕ → Str → User
new_user request now ip = record {
  uid = pos 0;
  user_name = request.user_name;
  avatar = [];
  password = request.password;
  role = request.role;
  status = user_enabled;
  quota = pos default_user_quota_bytes;
  create_time = now;
  modify_time = now;
  last_access_time = now;
  last_access_ip = ip;
}

module _ {DB : Type 0} (services : Services DB) where
  abbrev registered : ℕ → Str → RegisterUserResponse
  registered code message = record { status_code = code; message = message }

  -- `AuthNode::handle_register_user_request`; the time and the address of the peer are arguments.
  unfoldable pub handle_register_user_request :
      RegisterUserRequest → ℕ → Str → DB → DB × RegisterUserResponse
  unfolding str_discrete default_admin_secret
  handle_register_user_request request now ip db =
      if empty request.user_name || empty request.password
      then (db, registered status_invalid_argument (utf8 "用户名或密码不能为空"))
      else if not (role_is_valid request.role)
      then (db, registered status_invalid_argument (utf8 "无效用户权限值"))
      else if is_admin request.role
          && ite (str_discrete request.admin_secret default_admin_secret) false true
      then (db, registered status_invalid_argument (utf8 "管理员密钥错误"))
      else if not (services.prepare db Statement.select_name)
      then (db, registered status_internal (utf8 "服务器数据库错误，无法查询用户是否存在"))
      else if services.step_name db request.user_name
      then (db, registered status_invalid_argument (utf8 "用户名已存在"))
      else if not (services.prepare db Statement.insert_user)
      then (db, registered status_internal (utf8 "数据库 SQL 准备失败，无法创建用户"))
      else (let (inserted, is_done) = services.step_insert db (new_user request now ip) in
          if is_done
          then (inserted, registered status_ok (utf8 "注册成功"))
          else (inserted, registered status_internal (utf8 "数据库 SQL 执行失败，无法创建用户")))

  -- The uid of a token that verifies; no result is any exception on the way.
  unfoldable pub uid_of_token : Str → Option ℤ
  unfolding stoll
  uid_of_token token =
      if services.verify token
      then (do uid ← services.claim token (utf8 "uid"); stoll uid)
      else none

  abbrev deleted : ℕ → Str → DeleteUserResponse
  deleted code message = record { status_code = code; message = message }

  -- `AuthNode::handle_delete_user_request`
  unfoldable pub handle_delete_user_request : DeleteUserRequest → DB → DB × DeleteUserResponse
  unfolding uid_of_token
  handle_delete_user_request request db = elim (uid_of_token request.token) [
    | none ↦ (db, deleted status_permission_denied (utf8 "无效 Token"))
    | some uid ↦
        if not (services.prepare db Statement.delete_account)
        then (db, deleted status_internal (utf8 "服务器数据库错误，无法删除用户"))
        else (let (left, is_done) = services.step_delete db uid request.password in
            if is_done
            then (left, deleted status_ok (utf8 "注销成功"))
            else (left, deleted status_internal (utf8 "服务器数据库错误，无法删除用户")))
  ]

  -- A response that carries only a code and a text.
  abbrev refused : ℕ → Str → LoginUserByNameResponse
  refused code message = record {
    status_code = code;
    message = message;
    token = [];
    user_name = [];
    avatar = [];
    create_time = [];
  }

  -- The token that a login issues.
  abbrev pub issued : ℕ → ℤ → User → Str
  issued now role user =
      services.sign now (int_to_string user.uid) (int_to_string role) (int_to_string user.quota)

  -- `AuthNode::handle_login_user_by_user_name_request`
  unfoldable pub handle_login_user_by_user_name_request :
      LoginUserByNameRequest → ℕ → Str → DB → DB × LoginUserByNameResponse
  unfolding int_to_string
  handle_login_user_by_user_name_request request now ip db =
      if not (services.prepare db Statement.select_login)
      then (db, refused status_internal (utf8 "服务器数据库错误，无法查询用户"))
      else elim (services.step_login db request.user_name request.password request.role) [
        | none ↦ (db, refused status_internal (utf8 "用户名或密码错误"))
        | some user ↦
            if not (status_is_enabled user.status)
            then (db, refused status_permission_denied (utf8 "用户被禁用，请联系管理员"))
            else if not (services.prepare db Statement.update_access)
            then (db, refused status_internal (utf8 "服务器数据库错误，无法更新用户数据"))
            else (let (updated, is_done) = services.step_update db now ip user.uid in
                (
                  updated,
                  record {
                    status_code = status_ok;
                    message = utf8 "登录成功";
                    token = issued now request.role user;
                    user_name = request.user_name;
                    avatar = user.avatar;
                    create_time = services.format_time user.create_time;
                  },
                ))
      ]
