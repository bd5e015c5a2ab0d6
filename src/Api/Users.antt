-- ===== src/Api/Users.antt =====
-- api/authpb/auth.proto: the messages of the `user` service. A role is the number of the enumeration,
-- which the protocol leaves open, and so is a status.
use vosfs.Common.{ℕ, Str, ℤ, pos}

-- `User_Role` and `User_Status`
abbrev pub role_admin : ℤ
role_admin = pos 0

abbrev pub role_user : ℤ
role_user = pos 1

abbrev pub user_enabled : ℤ
user_enabled = pos 0

abbrev pub user_disabled : ℤ
user_disabled = pos 1

abbrev pub user_deleted : ℤ
user_deleted = pos 2

pub record RegisterUserRequest : Type 0 where
  pub user_name : Str
  pub password : Str
  pub role : ℤ
  pub admin_secret : Str

pub record RegisterUserResponse : Type 0 where
  pub status_code : ℕ
  pub message : Str

pub record DeleteUserRequest : Type 0 where
  pub token : Str
  pub password : Str

pub record DeleteUserResponse : Type 0 where
  pub status_code : ℕ
  pub message : Str

pub record LoginUserByNameRequest : Type 0 where
  pub user_name : Str
  pub password : Str
  pub role : ℤ

pub record LoginUserByNameResponse : Type 0 where
  pub status_code : ℕ
  pub message : Str
  pub token : Str
  pub user_name : Str
  pub avatar : Str
  pub create_time : Str
