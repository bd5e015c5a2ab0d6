-- ===== src/Auth/Accounts.antt =====
-- What becomes of the table of users when they register, delete their accounts and log in.
use vosfs.Common.{
  ℕ, ◌^◌, ◌<◌, ◌≡◌, ◌≢◌, ◌∷◌, [], ◌++◌, ◌∙◌, sym, ap, List, true, false, some, Str, ℤ, pos, All,
  ◌⊎◌, inl, inr, empty, arith, Bool-cases, Option-cases, refl, subst, ℕ_discrete,
}
use vosfs.Api.{RegisterUserRequest, DeleteUserRequest}
use vosfs.StateMachine.Defs.{status_ok}
use vosfs.Auth.Defs.{
  User, Services, Statement, new_user, role_is_valid, is_admin, default_admin_secret,
  handle_register_user_request, uid_of_token, handle_delete_user_request,
}
use vosfs.Auth.Table.{NoName, NoUid, without, TableLaws}

-- A request to register that the checks let pass.
abbrev pub MayRegister : RegisterUserRequest → Type 0
MayRegister request =
    (empty request.user_name ≡ false)
    × (empty request.password ≡ false)
    × (role_is_valid request.role ≡ true)
    × (is_admin request.role ≡ true → request.admin_secret ≡ default_admin_secret)

module _ {DB : Type 0} (services : Services DB) where
  register-ok :
      (request : RegisterUserRequest) (now : ℕ) (ip : Str) (db : DB)
      → (handle_register_user_request services request now ip db).1.status_code ≡ status_ok
      → MayRegister request
        × ((services.step_insert db (new_user request now ip)).1 ≡ true)
        × ((handle_register_user_request services request now ip db).0
            ≡ (services.step_insert db (new_user request now ip)).0)
  unfolding handle_register_user_request
  register-ok request now ip db h = ground arith

  register-not_ok :
      (request : RegisterUserRequest) (now : ℕ) (ip : Str) (db : DB)
      → (handle_register_user_request services request now ip db).1.status_code ≢ status_ok
      → ((handle_register_user_request services request now ip db).0 ≡ db)
        ⊎ (((services.step_insert db (new_user request now ip)).1 ≡ false)
            × ((handle_register_user_request services request now ip db).0
                ≡ (services.step_insert db (new_user request now ip)).0))
  unfolding handle_register_user_request
  register-not_ok request now ip db h = ground arith

  -- The branches of a deletion.
  delete-ways :
      (request : DeleteUserRequest) (db : DB)
      → (let result = handle_delete_user_request services request db in
          ((result.1.status_code ≡ status_ok)
            × ((uid : ℤ) × (uid_of_token services request.token ≡ some uid)
                × ((services.step_delete db uid request.password).1 ≡ true)
                × (result.0 ≡ (services.step_delete db uid request.password).0)))
          ⊎ ((result.1.status_code ≢ status_ok)
              × ((result.0 ≡ db)
                  ⊎ ((uid : ℤ) × ((services.step_delete db uid request.password).1 ≡ false)
                      × (result.0 ≡ (services.step_delete db uid request.password).0)))))
  unfolding handle_delete_user_request
  delete-ways request db = elim (Option-cases (uid_of_token services request.token)) [
    | inl e ↦ inr (ground arith, inl (ground arith))
    | inr (uid, e) ↦ elim (Bool-cases (services.prepare db Statement.delete_account)) [
      | inr f ↦ inr (ground arith, inl (ground arith))
      | inl p ↦ elim (Bool-cases (services.step_delete db uid request.password).1) [
        | inl d ↦ inl (ground arith, (uid, e, d, ground arith))
        | inr d ↦ inr (ground arith, inr (uid, d, ground arith))
      ]
    ]
  ]

module _ {DB : Type 0} (services : Services DB) (laws : TableLaws services) where
  -- A registration is answered with success only if the name and the password are not empty, the role
  -- is one of the two, an administrator gives the secret, and no user had the name. Then the table has
  -- one more row, an enabled user as requested with the default quota under a number that no row had.
  -- A registration that is answered otherwise leaves the table as it is.
  pub register-users :
      (request : RegisterUserRequest) (now : ℕ) (ip : Str) (db : DB)
      → (let (db', response) = handle_register_user_request services request now ip db in
          ((response.status_code ≡ status_ok)
            × MayRegister request
            × NoName request.user_name (laws.users db)
            × ((n : ℕ) × (n < 2 ^ 63)
                × NoUid (pos n) (laws.users db)
                × (laws.users db'
                    ≡ laws.users db ++ record (new_user request now ip) { uid = pos n } ∷ [])))
          ⊎ ((response.status_code ≢ status_ok) × (laws.users db' ≡ laws.users db)))
  register-users request now ip db =
      let result = handle_register_user_request services request now ip db in
      elim (ℕ_discrete result.1.status_code status_ok) [
        | yes done ↦
            (let (may, inserted, after) = register-ok services request now ip db done in
              let (n, small, rows, name, uid) =
                laws.insert_done db (new_user request now ip) inserted in
              inl (done, may, name, (n, small, uid, ap laws.users after ∙ rows)))
        | no failed ↦ elim (register-not_ok services request now ip db failed) [
          | inl same ↦ inr (failed, ap laws.users same)
          | inr (not_inserted, after) ↦ inr (
            failed,
            ap laws.users after ∙ laws.insert_failed db (new_user request now ip) not_inserted,
          )
        ]
      ]

  NoName-append : (name : Str) (us vs : List User) → NoName name (us ++ vs) → NoName name vs
  NoName-append name [] vs h = h
  NoName-append name (u ∷ us) vs h = NoName-append name us vs h.1

  -- After a registration that is answered with success, a second one of the same name on the same
  -- table, whatever else it says, is not, and leaves the table as it is.
  pub register-twice :
      (first second : RegisterUserRequest) (now later : ℕ) (ip ip' : Str) (db : DB)
      → second.user_name ≡ first.user_name
      → (let (db', response) = handle_register_user_request services first now ip db in
          let (db'', response') = handle_register_user_request services second later ip' db' in
          response.status_code ≡ status_ok
          → (response'.status_code ≢ status_ok) × (laws.users db'' ≡ laws.users db'))
  register-twice first second now later ip ip' db same ok =
      let (db', response) = handle_register_user_request services first now ip db in
      elim (register-users second later ip' db') [
        | inr refused ↦ refused
        | inl (_, may, name, _) ↦ elim (register-users first now ip db) [
          | inr failed ↦ absurd (failed.0 ok)
          | inl (_, _, _, (n, _, _, rows)) ↦
              (let there : NoName second.user_name
                    (record (new_user first now ip) { uid = pos n } ∷ []) =
                  NoName-append second.user_name (laws.users db)
                    (record (new_user first now ip) { uid = pos n } ∷ [])
                    (subst (NoName second.user_name) rows name) in
                absurd (there.0 (sym same)))
        ]
      ]

  -- A deletion that is answered with success removes exactly the rows with the uid of the token and
  -- the password of the request; every other leaves the table as it is.
  pub delete-users :
      (request : DeleteUserRequest) (db : DB)
      → (let (db', response) = handle_delete_user_request services request db in
          ((response.status_code ≡ status_ok)
            × ((uid : ℤ) × (uid_of_token services request.token ≡ some uid)
                × (laws.users db' ≡ without uid request.password (laws.users db))))
          ⊎ ((response.status_code ≢ status_ok) × (laws.users db' ≡ laws.users db)))
  delete-users request db = elim (delete-ways services request db) [
    | inl (ok, (uid, token, done, after)) ↦
        inl (ok, (uid, token, ap laws.users after ∙ laws.delete_done db uid request.password done))
    | inr (failed, inl same) ↦ inr (failed, ap laws.users same)
    | inr (failed, inr (uid, not_done, after)) ↦
        inr (failed, ap laws.users after ∙ laws.delete_failed db uid request.password not_done)
  ]

  without-other :
      (uid : ℤ) (password : Str) (us : List User)
      → All (λ (u : User). u.uid ≡ uid → u.password ≢ password) us
      → without uid password us ≡ us
  unfolding without
  without-other uid password [] h = refl
  without-other uid password (u ∷ us) h = ground (arith, without-other uid password us h.1, h.0)

  -- A deletion with a valid token and a password that is not the user's, whose statement the database
  -- carries out, is answered with success although no row is removed.
  pub delete-wrong_password :
      (request : DeleteUserRequest) (db : DB) (uid : ℤ)
      → uid_of_token services request.token ≡ some uid
      → services.prepare db Statement.delete_account ≡ true
      → (services.step_delete db uid request.password).1 ≡ true
      → All (λ (u : User). u.uid ≡ uid → u.password ≢ request.password) (laws.users db)
      → (let (db', response) = handle_delete_user_request services request db in
          (response.status_code ≡ status_ok) × (laws.users db' ≡ laws.users db))
  unfolding handle_delete_user_request
  delete-wrong_password request db uid token prepared done wrong = (
    ground arith,
    ap laws.users (ground arith)
        ∙ laws.delete_done db uid request.password done
        ∙ without-other uid request.password (laws.users db) wrong,
  )
