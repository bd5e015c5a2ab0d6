-- ===== src/Auth/Table.antt =====
-- The table `user` as a list of its rows, and what is documented of the statements on it.
use vosfs.Common.{
  ℕ, ◌^◌, ◌<◌, ◌≡◌, ◌≢◌, ◌∷◌, [], ◌++◌, List, true, false, some, Str, ite, ℤ, pos, All, ◌⊎◌,
  int_discrete, str_discrete,
}
use vosfs.Auth.Defs.{User, Services}

-- No row has the name.
abbrev pub NoName : Str → List User → Type 0
NoName name = All (λ (u : User). u.user_name ≢ name)

abbrev pub NoUid : ℤ → List User → Type 0
NoUid uid = All (λ (u : User). u.uid ≢ uid)

abbrev pub Holds : User → List User → Type 0
Holds u [] = ⊥
Holds u (v ∷ us) = (u ≡ v) ⊎ Holds u us

-- The rows that a `DELETE` with a uid and a password leaves.
unfoldable pub without : ℤ → Str → List User → List User
unfolding int_discrete str_discrete
without uid password [] = []
without uid password (u ∷ us) =
    ite (int_discrete u.uid uid)
      (ite (str_discrete u.password password) (without uid password us)
        (u ∷ without uid password us))
      (u ∷ without uid password us)

-- The rows after an `UPDATE` of the last access of a uid.
unfoldable pub touched : ℕ → Str → ℤ → List User → List User
unfolding int_discrete
touched time ip uid [] = []
touched time ip uid (u ∷ us) =
    ite (int_discrete u.uid uid) (record u { last_access_time = time; last_access_ip = ip }) u
    ∷ touched time ip uid us

-- A statement that ends with `SQLITE_DONE` has done what it says, with the constraints of the table:
-- no two rows have one name or one uid, and a new uid is a positive 64-bit number. One that fails has
-- changed nothing. A row that a `SELECT` yields is in the table.
pub record TableLaws {DB : Type 0} (services : Services DB) : Type 0 where
  pub users : DB → List User
  pub name_absent :
      (db : DB) (name : Str) → NoName name (users db) → services.step_name db name ≡ false
  pub insert_done :
      (db : DB) (u : User)
      → (services.step_insert db u).1 ≡ true
      → (n : ℕ) × (n < 2 ^ 63)
        × (users (services.step_insert db u).0 ≡ users db ++ record u { uid = pos n } ∷ [])
        × NoName u.user_name (users db)
        × NoUid (pos n) (users db)
  pub insert_failed :
      (db : DB) (u : User)
      → (services.step_insert db u).1 ≡ false
      → users (services.step_insert db u).0 ≡ users db
  pub delete_done :
      (db : DB) (uid : ℤ) (password : Str)
      → (services.step_delete db uid password).1 ≡ true
      → users (services.step_delete db uid password).0 ≡ without uid password (users db)
  pub delete_failed :
      (db : DB) (uid : ℤ) (password : Str)
      → (services.step_delete db uid password).1 ≡ false
      → users (services.step_delete db uid password).0 ≡ users db
  pub update_done :
      (db : DB) (time : ℕ) (ip : Str) (uid : ℤ)
      → (services.step_update db time ip uid).1 ≡ true
      → users (services.step_update db time ip uid).0 ≡ touched time ip uid (users db)
  pub update_failed :
      (db : DB) (time : ℕ) (ip : Str) (uid : ℤ)
      → (services.step_update db time ip uid).1 ≡ false
      → users (services.step_update db time ip uid).0 ≡ users db
  pub login_row :
      (db : DB) (name password : Str) (role : ℤ) (u : User)
      → services.step_login db name password role ≡ some u
      → Holds u (users db) × (u.user_name ≡ name) × (u.password ≡ password) × (u.role ≡ role)
