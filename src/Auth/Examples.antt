-- ===== src/Auth/Examples.antt =====
-- The theorems on the authentication node over a table in memory.
use mathlib.Core.Logic.{if_neg}
use vosfs.Common.{
  ℕ, zero, suc, ap, ◌∙◌, ◌^◌, ◌<◌, ◌≡◌, ◌≢◌, ◌∷◌, [], ◌++◌, List, Bool, true, false, Option, none,
  some, Str, utf8, ℤ, pos, All, ◌⊎◌, inl, arith, refl, sym, ite, not, empty, int_discrete,
  str_discrete,
}
use vosfs.Api.{RegisterUserRequest, LoginUserByNameRequest}
use vosfs.StateMachine.Defs.{status_ok}
use vosfs.Client.Defs.{Client, Job}
use vosfs.Client.Responses.{handle_login_user_by_name_response}
use vosfs.Client.Samples.{Fs, desktop, client, done_ok}
use vosfs.Auth.Defs.{
  default_user_quota_bytes, User, Services, new_user, handle_register_user_request, uid_of_token,
  handle_delete_user_request, handle_login_user_by_user_name_request, issued, status_is_enabled,
}
use vosfs.Auth.Table.{NoName, NoUid, Holds, without, touched, TableLaws}
use vosfs.Auth.Accounts.{register-users, delete-wrong_password, MayRegister}
use vosfs.Auth.Sessions.{login-users, session-register, TokenLaws}

-- A table with room for one row.
abbrev Db : Type 0
Db = Option User

abbrev rows : Db → List User
rows none = []
rows (some u) = u ∷ []

abbrev named : Db → Str → Bool
named none name = false
named (some u) name = ite (str_discrete u.user_name name) true false

abbrev insert_row : Db → User → Db × Bool
insert_row none u = (some (record u { uid = pos 1 }), true)
insert_row (some v) u = (some v, false)

abbrev delete_row : Db → ℤ → Str → Db × Bool
delete_row none uid password = (none, true)
delete_row (some u) uid password = (
  ite (int_discrete u.uid uid) (ite (str_discrete u.password password) none (some u)) (some u),
  true,
)

abbrev update_row : Db → ℕ → Str → ℤ → Db × Bool
update_row none time ip uid = (none, true)
update_row (some u) time ip uid = (
  some (ite (int_discrete u.uid uid) (record u { last_access_time = time; last_access_ip = ip }) u),
  true,
)

abbrev login_row : Db → Str → Str → ℤ → Option User
login_row none name password role = none
login_row (some u) name password role =
    ite (str_discrete u.user_name name)
      (ite (str_discrete u.password password) (ite (int_discrete u.role role) (some u) none) none)
      none

-- A token is its three texts, the first two of them with every byte raised by one and a 0 behind.
abbrev mark : Str → Str
mark [] = []
mark (c ∷ s) = suc c ∷ mark s

abbrev first : Str → Str
first [] = []
first (zero ∷ s) = []
first (suc c ∷ s) = c ∷ first s

abbrev rest : Str → Str
rest [] = []
rest (zero ∷ s) = s
rest (suc c ∷ s) = rest s

abbrev claim_of : Str → Str → Option Str
claim_of token name =
    ite (str_discrete name (utf8 "uid")) (some (first token))
      (ite (str_discrete name (utf8 "role")) (some (first (rest token))) (some (rest (rest token))))

abbrev services : Services Db
services = record {
  prepare = λ db statement. true;
  step_name = named;
  step_insert = insert_row;
  step_delete = delete_row;
  step_update = update_row;
  step_login = login_row;
  verify = λ token. not (empty token);
  claim = claim_of;
  sign = λ now a b c. mark a ++ 0 ∷ (mark b ++ 0 ∷ c);
  format_time = λ t. [];
}

login_row-matches :
    (db : Db) (name password : Str) (role : ℤ) (u : User)
    → login_row db name password role ≡ some u
    → Holds u (rows db) × (u.user_name ≡ name) × (u.password ≡ password) × (u.role ≡ role)
login_row-matches none name password role u e = absurd (cc)
login_row-matches (some v) name password role u e =
    let same : v ≡ u = ground arith in (inl (sym same), ground arith, ground arith, ground arith)

insert_row-rows :
    (db : Db) (u : User)
    → (insert_row db u).1 ≡ true
    → (n : ℕ) × (n < 2 ^ 63)
      × (rows (insert_row db u).0 ≡ rows db ++ record u { uid = pos n } ∷ [])
      × NoName u.user_name (rows db)
      × NoUid (pos n) (rows db)
insert_row-rows none u e = (1, omega arith, refl, tt, tt)
insert_row-rows (some v) u e = absurd (cc)

insert_row-failed :
    (db : Db) (u : User) → (insert_row db u).1 ≡ false → rows (insert_row db u).0 ≡ rows db
insert_row-failed none u e = absurd (cc)
insert_row-failed (some v) u e = refl

delete_row-rows :
    (db : Db) (uid : ℤ) (password : Str)
    → rows (delete_row db uid password).0 ≡ without uid password (rows db)
unfolding without
delete_row-rows none uid password = refl
delete_row-rows (some u) uid password = ground arith

update_row-rows :
    (db : Db) (time : ℕ) (ip : Str) (uid : ℤ)
    → rows (update_row db time ip uid).0 ≡ touched time ip uid (rows db)
unfolding touched
update_row-rows none time ip uid = refl
update_row-rows (some u) time ip uid = refl

always : (db : Db) (uid : ℤ) (password : Str) → (delete_row db uid password).1 ≡ true
always none uid password = refl
always (some u) uid password = refl

always_updated : (db : Db) (time : ℕ) (ip : Str) (uid : ℤ) → (update_row db time ip uid).1 ≡ true
always_updated none time ip uid = refl
always_updated (some u) time ip uid = refl

named-absent : (db : Db) (name : Str) → NoName name (rows db) → named db name ≡ false
named-absent none name h = refl
named-absent (some u) name h = if_neg (str_discrete u.user_name name) h.0 true false

laws : TableLaws services
laws = record {
  users = rows;
  name_absent = named-absent;
  insert_done = insert_row-rows;
  insert_failed = insert_row-failed;
  delete_done = λ db uid password e. delete_row-rows db uid password;
  delete_failed = λ db uid password e. absurd (cc (always db uid password, e));
  update_done = λ db time ip uid e. update_row-rows db time ip uid;
  update_failed = λ db time ip uid e. absurd (cc (always_updated db time ip uid, e));
  login_row = login_row-matches;
}

abbrev ann : RegisterUserRequest
ann = record { user_name = 5 ∷ []; password = 6 ∷ []; role = pos 1; admin_secret = [] }

abbrev ann_row : User
ann_row = record (new_user ann 9 []) { uid = pos 1 }

-- The token of Ann's row.
abbrev ann_token : Str
ann_token = mark (b'1' ∷ []) ++ 0 ∷ (mark (b'1' ∷ []) ++ 0 ∷ [])

register-users_example :
    (let (db', response) = handle_register_user_request services ann 9 [] none in
      ((response.status_code ≡ status_ok)
        × MayRegister ann
        × NoName ann.user_name (laws.users none)
        × ((n : ℕ) × (n < 2 ^ 63)
            × NoUid (pos n) (laws.users none)
            × (laws.users db'
                ≡ laws.users none ++ record (new_user ann 9 []) { uid = pos n } ∷ [])))
      ⊎ ((response.status_code ≢ status_ok) × (laws.users db' ≡ laws.users none)))
register-users_example = register-users services laws ann 9 [] none

other_password : All (λ (u : User). u.uid ≡ pos 1 → u.password ≢ 7 ∷ []) (ann_row ∷ [])
other_password = (λ e f. ground arith, tt)

delete-wrong_password_example :
    (let (db', response) =
        handle_delete_user_request services
          (record { token = ann_token; password = 7 ∷ [] })
          (some ann_row) in
      (response.status_code ≡ status_ok) × (laws.users db' ≡ laws.users (some ann_row)))
unfolding uid_of_token str_discrete utf8 laws
delete-wrong_password_example =
    delete-wrong_password services laws (record { token = ann_token; password = 7 ∷ [] })
      (some ann_row) (pos 1) refl refl refl other_password

abbrev ann_login : LoginUserByNameRequest
ann_login = record { user_name = 5 ∷ []; password = 6 ∷ []; role = pos 1 }

login-users_example :
    (let (db', response) =
        handle_login_user_by_user_name_request services ann_login 11 [] (some ann_row) in
      ((response.status_code ≡ status_ok)
        × ((u : User) × Holds u (laws.users (some ann_row))
            × ((u.user_name ≡ ann_login.user_name)
                × (u.password ≡ ann_login.password)
                × (u.role ≡ ann_login.role)
                × (status_is_enabled u.status ≡ true))
            × (response.token ≡ issued services 11 ann_login.role u)
            × ((laws.users db' ≡ laws.users (some ann_row))
                ⊎ (laws.users db' ≡ touched 11 [] u.uid (laws.users (some ann_row))))))
      ⊎ ((response.status_code ≢ status_ok)
          × (response.token ≡ [])
          × (laws.users db' ≡ laws.users (some ann_row))))
login-users_example = login-users services laws ann_login 11 [] (some ann_row)

first-mark : (a t : Str) → first (mark a ++ 0 ∷ t) ≡ a
first-mark [] t = refl
first-mark (c ∷ a) t = ap (λ s. c ∷ s) (first-mark a t)

rest-mark : (a t : Str) → rest (mark a ++ 0 ∷ t) ≡ t
rest-mark [] t = refl
rest-mark (c ∷ a) t = rest-mark a t

tokens : TokenLaws services (desktop claim_of)
unfolding utf8 str_discrete
tokens = record {
  uid = λ now a b c. ap some (first-mark a (mark b ++ 0 ∷ c));
  role = λ now a b c.
      ap (λ s. some (first s)) (rest-mark a (mark b ++ 0 ∷ c)) ∙ ap some (first-mark b c);
  quota = λ now a b c.
      ap (λ s. some (rest s)) (rest-mark a (mark b ++ 0 ∷ c)) ∙ ap some (rest-mark b c);
}

session-register_example :
    (let (db', registered) = handle_register_user_request services ann 9 [] none in
      let (db'', answer) = handle_login_user_by_user_name_request services ann_login 11 [] db' in
      (n : ℕ) × (c' : Client Fs) × (laws.users db'
        ≡ laws.users none ++ record (new_user ann 9 []) { uid = pos n } ∷ [])
      × (handle_login_user_by_name_response (desktop claim_of) done_ok answer client ≡ some c')
      × (c'.session.uid ≡ pos n)
      × (c'.session.token ≡ answer.token)
      × (c'.session.user_name ≡ ann.user_name)
      × (c'.session.role ≡ ann.role)
      × (c'.session.quota ≡ default_user_quota_bytes)
      × (c'.tasks ≡ client.tasks ++ Job.load_transport_tasks ∷ []))
unfolding handle_register_user_request handle_login_user_by_user_name_request int_discrete
session-register_example =
    session-register services laws (desktop claim_of) tokens ann 9 11 [] [] none done_ok client refl
      refl refl
