-- ===== src/Auth/Sessions.antt =====
-- A login: what the node answers, and the session that the client begins with the answer.
use vosfs.Common.{
  ℕ, ◌^◌, ◌<◌, ◌≡◌, ◌≢◌, ◌∷◌, [], ◌++◌, ◌∙◌, sym, ap, List, true, some, Str, ℤ, pos, negsuc, ◌⊎◌,
  inl, inr, arith, Bool-cases, Option-cases, refl, subst, utf8, int_to_string, to_string, stoi,
  stoll-to_string, stoi-to_string, stoull-to_string,
}
use vosfs.Api.{RegisterUserRequest, LoginUserByNameRequest, LoginUserByNameResponse}
use vosfs.StateMachine.Defs.{status_ok}
use vosfs.Auth.Defs.{
  User, Services, Statement, new_user, status_is_enabled, issued, role_is_valid,
  default_user_quota_bytes, handle_register_user_request, handle_login_user_by_user_name_request,
}
use vosfs.Auth.Table.{NoName, Holds, touched, TableLaws}
use vosfs.Auth.Accounts.{register-users}
use vosfs.Client.Defs.{Client, Desktop, Job, Signal, RpcStatus, UserSession, emit, log, enqueue}
use vosfs.Client.Responses.{begin_session, handle_login_user_by_name_response}

module _ {DB : Type 0} (services : Services DB) where
  login-ways :
      (request : LoginUserByNameRequest) (now : ℕ) (ip : Str) (db : DB)
      → (let result = handle_login_user_by_user_name_request services request now ip db in
          ((result.1.status_code ≡ status_ok)
            × ((u : User) × (services.step_login db request.user_name request.password request.role
                  ≡ some u)
                × (status_is_enabled u.status ≡ true)
                × (result.1.token ≡ issued services now request.role u)
                × (result.1.user_name ≡ request.user_name)
                × (result.0 ≡ (services.step_update db now ip u.uid).0)))
          ⊎ ((result.1.status_code ≢ status_ok) × (result.1.token ≡ []) × (result.0 ≡ db)))
  unfolding handle_login_user_by_user_name_request
  login-ways request now ip db =
      elim (Option-cases (services.step_login db request.user_name request.password request.role)) [
        | inl e ↦ inr (ground arith, ground arith, ground arith)
        | inr (u, e) ↦ elim (Bool-cases (status_is_enabled u.status)) [
          | inr f ↦ inr (ground arith, ground arith, ground arith)
          | inl on ↦ elim (Bool-cases (services.prepare db Statement.select_login)) [
            | inr f ↦ inr (ground arith, ground arith, ground arith)
            | inl p ↦ elim (Bool-cases (services.prepare db Statement.update_access)) [
              | inr f ↦ inr (ground arith, ground arith, ground arith)
              | inl q ↦ inl (ground arith, (u, e, on, ground arith, ground arith, ground arith))
            ]
          ]
        ]
      ]

module _ {DB : Type 0} (services : Services DB) (laws : TableLaws services) where
  -- A login is answered with success only for a row of the table with the name, the password and the
  -- role of the request whose status is enabled; it carries the token for that row, and at most the
  -- last access of its uid changes. Every other login gets no token and leaves the table as it is.
  pub login-users :
      (request : LoginUserByNameRequest) (now : ℕ) (ip : Str) (db : DB)
      → (let (db', response) = handle_login_user_by_user_name_request services request now ip db in
          ((response.status_code ≡ status_ok)
            × ((u : User) × Holds u (laws.users db)
                × ((u.user_name ≡ request.user_name)
                    × (u.password ≡ request.password)
                    × (u.role ≡ request.role)
                    × (status_is_enabled u.status ≡ true))
                × (response.token ≡ issued services now request.role u)
                × ((laws.users db' ≡ laws.users db)
                    ⊎ (laws.users db' ≡ touched now ip u.uid (laws.users db)))))
          ⊎ ((response.status_code ≢ status_ok)
              × (response.token ≡ [])
              × (laws.users db' ≡ laws.users db)))
  login-users request now ip db = elim (login-ways services request now ip db) [
    | inl (ok, (u, row, on, token, name, after)) ↦
        (let (held, named, password, role) =
            laws.login_row db request.user_name request.password request.role u row in
          inl (
            ok,
            (
              u,
              held,
              (named, password, role, on),
              token,
              elim (Bool-cases (services.step_update db now ip u.uid).1) [
                | inl done ↦ inr (ap laws.users after ∙ laws.update_done db now ip u.uid done)
                | inr failed ↦ inl (ap laws.users after ∙ laws.update_failed db now ip u.uid failed)
              ],
            ),
          ))
    | inr (failed, token, same) ↦ inr (failed, token, ap laws.users same)
  ]

-- What is documented of the tokens: the claims are what was signed.
pub record TokenLaws {DB FS : Type 0} (services : Services DB) (desktop : Desktop FS) : Type 0 where
  pub uid : (now : ℕ) (a b c : Str) → desktop.claim (services.sign now a b c) (utf8 "uid") ≡ some a
  pub role :
      (now : ℕ) (a b c : Str) → desktop.claim (services.sign now a b c) (utf8 "role") ≡ some b
  pub quota :
      (now : ℕ) (a b c : Str) → desktop.claim (services.sign now a b c) (utf8 "quota") ≡ some c

Holds-last :
    (name : Str) (u v : User) (us : List User)
    → NoName name us
    → u.user_name ≡ name
    → Holds u (us ++ v ∷ [])
    → u ≡ v
Holds-last name u v [] h e (inl same) = same
Holds-last name u v [] h e (inr later) = elim later [ ]
Holds-last name u v (w ∷ us) h e (inl same) =
    absurd (h.0 (ap (λ (x : User). x.user_name) (sym same) ∙ e))
Holds-last name u v (w ∷ us) h e (inr later) = Holds-last name u v us h.1 e later

stoi-role : (role : ℤ) → role_is_valid role ≡ true → stoi (int_to_string role) ≡ some role
unfolding int_to_string
stoi-role (pos n) h = stoi-to_string n (ground arith)
stoi-role (negsuc n) h = absurd (cc)

-- The claims of a token of the node are read back.
begin_session-issued :
    {DB FS : Type 0} (services : Services DB) (desktop : Desktop FS)
    (tokens : TokenLaws services desktop) (now n quota : ℕ) (role : ℤ)
    (response : LoginUserByNameResponse) (session : UserSession)
    → n < 2 ^ 63
    → quota < 2 ^ 64
    → role_is_valid role ≡ true
    → response.token ≡ services.sign now (to_string n) (int_to_string role) (to_string quota)
    → begin_session desktop response session
      ≡ some (record session {
        token = response.token;
        uid = pos n;
        user_name = response.user_name;
        avatar = response.avatar;
        role = role;
        quota = quota;
        create_time = response.create_time;
      })
unfolding begin_session
begin_session-issued services desktop tokens now n quota role response session small room valid
      token =
    let a = to_string n in
    let b = int_to_string role in
    let d = to_string quota in
    ground (
      arith,
      tokens.uid now a b d,
      tokens.role now a b d,
      tokens.quota now a b d,
      stoll-to_string n small,
      stoi-role role valid,
      stoull-to_string quota room,
      token,
    )

module _ {DB FS : Type 0} (services : Services DB) (laws : TableLaws services)
    (desktop : Desktop FS) (tokens : TokenLaws services desktop) where
  -- A user who registers with success and then logs in with success, with the same name, password and
  -- role, has a session of the client under the number of the new row, with the token of the answer,
  -- the name, the role and the default quota, and the client puts the load of the saved transfers into
  -- its queue.
  pub session-register :
      (request : RegisterUserRequest) (now later : ℕ) (ip ip' : Str) (db : DB) (status : RpcStatus)
      (c : Client FS)
      → status.is_ok ≡ true
      → (let (db', registered) = handle_register_user_request services request now ip db in
          let (db'', answer) =
            handle_login_user_by_user_name_request services
              (record {
                user_name = request.user_name;
                password = request.password;
                role = request.role;
              })
              later
              ip'
              db' in
          registered.status_code ≡ status_ok
          → answer.status_code ≡ status_ok
          → (n : ℕ) × (c' : Client FS) × (laws.users db'
              ≡ laws.users db ++ record (new_user request now ip) { uid = pos n } ∷ [])
            × (handle_login_user_by_name_response desktop status answer c ≡ some c')
            × (c'.session.uid ≡ pos n)
            × (c'.session.token ≡ answer.token)
            × (c'.session.user_name ≡ request.user_name)
            × (c'.session.role ≡ request.role)
            × (c'.session.quota ≡ default_user_quota_bytes)
            × (c'.tasks ≡ c.tasks ++ Job.load_transport_tasks ∷ []))
  unfolding handle_login_user_by_name_response int_to_string
  session-register request now later ip ip' db status c is_ok registered logged_in =
      let (db', reply) = handle_register_user_request services request now ip db in
      let login : LoginUserByNameRequest = record {
        user_name = request.user_name;
        password = request.password;
        role = request.role;
      } in
      let answer = (handle_login_user_by_user_name_request services login later ip' db').1 in
      elim (register-users services laws request now ip db) [
        | inr failed ↦ absurd (failed.0 registered)
        | inl (ok, may, absent, (n, small, fresh, rows)) ↦
            elim (login-ways services login later ip' db') [
              | inr failed ↦ absurd (failed.0 logged_in)
              | inl (ok', (u, row, on, token, name, after)) ↦
                  (let new = record (new_user request now ip) { uid = pos n } in
                    let (held, named, _, _) =
                      laws.login_row db' request.user_name request.password request.role u row in
                    let same : u ≡ new =
                      Holds-last request.user_name u new (laws.users db) absent named
                        (subst (Holds u) rows held) in
                    let begun =
                      begin_session-issued services desktop tokens later n default_user_quota_bytes
                        request.role answer c.session small (omega arith) may.2
                        (token ∙ ap (issued services later request.role) same) in
                    let session = record (c.session) {
                      token = answer.token;
                      uid = pos n;
                      user_name = answer.user_name;
                      avatar = answer.avatar;
                      role = request.role;
                      quota = default_user_quota_bytes;
                      create_time = answer.create_time;
                    } in
                    (
                      n,
                      emit (Signal.login_finished true answer.message) (
                          log answer.message
                            (enqueue Job.load_transport_tasks (record c { session = session }))),
                      rows,
                      ground (arith, begun),
                      refl,
                      refl,
                      name,
                      refl,
                      refl,
                      refl,
                    ))
            ]
      ]
