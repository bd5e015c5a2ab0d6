-- ===== src/Common/Result.antt =====
-- include/vosfs/common/error.hpp: `Error` and `Result`.
pub data Error : Type 0 where
  database_connection_failed database_query_failed database_insert_failed : Error
  database_update_failed database_delete_failed : Error
  file_open_failed file_seek_failed file_read_failed file_write_failed : Error
  file_rename_failed file_create_failed file_not_found file_error : Error
  parse_failed serialize_failed : Error

pub data Result {ℓ} (A : Type ℓ) : Type ℓ where
  ok : A → Result A
  err : Error → Result A
