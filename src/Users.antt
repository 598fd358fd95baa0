-- ===== src/Users.antt =====
-- openvair/modules/user/service_layer/services.py: `UserManager` over the repository of
-- openvair/common/repositories/base_sqlalchemy.py. SQLAlchemy's session with its database and
-- passlib's bcrypt are parameters. An exception leaves the database as it was: nothing has been
-- written by then, and the unit of work rolls back.
pub mod Accounts
use openvair_rde_linter.Base.{
  ℕ, String, Bool, true, false, Option, none, some, List, [], ◌∷◌, ◌==◌, string_eq, is_empty,
  nat_eq, if◌then◌else◌, or_default,
}
use openvair_rde_linter.Result.{Exn, Result, ok, err, ◌>>=◌}

-- `UserInfo`
pub record UserInfo : Type 0 where
  pub username : Option String
  pub hashed_password : String
  pub email : Option String
  pub is_superuser : Bool

-- a row of the table `users`
pub record User : Type 0 where
  pub id : String
  pub info : UserInfo

-- `data['user_data']`, the user who sends the request
pub record UserData : Type 0 where
  pub id : Option String
  pub is_superuser : Bool

-- The message of a request, with `none` for a key that it does not have.
pub record Data : Type 0 where
  pub user_id : Option String
  pub user_data : Option UserData
  pub username : Option String
  pub password : Option String
  pub new_password : Option String
  pub email : Option String
  pub is_superuser : Option Bool

-- What the repository asks of the session: `session.get`, the query by name, `add` with `flush` and
-- `commit` (`none` for an IntegrityError), the commit of a changed password, and the query that
-- deletes, with the number of rows.
pub record Session (Db : Type 0) : Type 0 where
  pub get : Db → String → Option User
  pub by_name : Db → String → List User
  pub insert : Db → UserInfo → Option (User × Db)
  pub set_password : Db → String → String → Db
  pub delete : Db → String → ℕ × Db

-- `bcrypt.hash` and `bcrypt.verify`, with `none` for a MissingDigestError
pub record Bcrypt : Type 0 where
  pub hash : String → String
  pub verify : String → String → Option Bool

-- The truth of `data.get('user_data', {}).get('is_superuser')`.
unfoldable pub check_is_super_user : Data → Result {0} Unit
check_is_super_user req = elim req.user_data [
  | none ↦ err Exn.not_super_user
  | some user_data ↦ if user_data.is_superuser then ok tt else err Exn.not_super_user
]

-- `user_id != user_data.get('id')`, where a text is never None
unfoldable pub is_current : String → Option UserData → Bool
is_current user_id none = false
is_current user_id (some user_data) = elim user_data.id [ none ↦ false | some i ↦ user_id == i ]

unfoldable pub verificate_user_id : Data → Result {0} Unit
unfolding is_current or_default
verificate_user_id req =
    if is_current (or_default req.user_id "") req.user_data then ok tt else err Exn.wrong_user_id

-- `except exc.NoResultFound`
on_no_result : Exn → Exn
on_no_result Exn.no_result_found = Exn.user_does_not_exist
on_no_result raised = raised

-- a `try` block with that handler
unfoldable pub try_existing : {A : Type 0} → Result A → Result A
unfolding on_no_result
try_existing (ok a) = ok a
try_existing (err raised) = err (on_no_result raised)

module _ {Db : Type 0} (session : Session Db) (bcrypt : Bcrypt) where
  -- `BaseSqlAlchemyRepository.get_or_fail`
  unfoldable pub get_or_fail : Db → String → Result User
  get_or_fail db user_id = elim (session.get db user_id) [
    | none ↦ err Exn.entity_not_found
    | some user ↦ ok user
  ]

  -- `BaseSqlAlchemyRepository.delete_by_id`
  unfoldable pub delete_by_id : Db → String → Result Db
  delete_by_id db user_id =
      let (rows_deleted, rest) = session.delete db user_id in
      if nat_eq rows_deleted 0 then err Exn.entity_not_found else ok rest

  -- `query.one()`
  unfoldable pub get_by_name : Db → String → Result User
  get_by_name db username = elim (session.by_name db username) [
    | [] ↦ err Exn.no_result_found
    | user ∷ [] ↦ ok user
    | _ ∷ _ ∷ _ ↦ err Exn.multiple_results_found
  ]

  unfoldable pub verify_password : String → String → Result Bool
  verify_password password hashed_password = elim (bcrypt.verify password hashed_password) [
    | none ↦ err Exn.password_verify
    | some is_verify ↦ ok is_verify
  ]

  unfoldable pub get_user : Db → Data → Result User
  unfolding get_or_fail or_default
  get_user db req = get_or_fail db (or_default req.user_id "")

  unfoldable pub authenticate_user : Db → Data → Result User
  unfolding get_by_name verify_password or_default
  authenticate_user db req = do
    db_user ← get_by_name db (or_default req.username "")
    same ← verify_password (or_default req.password "") db_user.info.hashed_password
    if same then ok db_user else err Exn.user_credentials

  unfoldable pub prepare_user_info : Data → UserInfo
  unfolding or_default
  prepare_user_info req = record {
    username = req.username;
    hashed_password = bcrypt.hash (or_default req.password "");
    email = req.email;
    is_superuser = or_default req.is_superuser false;
  }

  -- the rest of `create_user`, under its checks
  unfoldable pub add_user : Db → UserInfo → Result (User × Db)
  add_user db user_info = elim (session.insert db user_info) [
    | none ↦ err Exn.user_exists
    | some created ↦ ok created
  ]

  unfoldable pub create_user : Db → Data → Result (User × Db)
  unfolding check_is_super_user verificate_user_id prepare_user_info add_user
  create_user db req = do
    _ ← check_is_super_user req
    _ ← verificate_user_id req
    add_user db (prepare_user_info req)

  unfoldable pub change_password : Db → Data → Result (User × Db)
  unfolding get_or_fail try_existing or_default is_empty
  change_password db req =
      let user_id = or_default req.user_id "" in
      let new_password = or_default req.new_password "" in
      if is_empty user_id
      then err Exn.unexpected_data
      else if is_empty new_password
      then err Exn.unexpected_data
      else do
        db_user ← try_existing (get_or_fail db user_id)
        ok (
          record db_user {
            info = record db_user.info { hashed_password = bcrypt.hash new_password };
          },
          session.set_password db user_id (bcrypt.hash new_password),
        )

  -- the id of the deleted user
  unfoldable pub delete_user : Db → Data → Result (String × Db)
  unfolding verificate_user_id get_or_fail delete_by_id try_existing or_default
  delete_user db req = do
    _ ← verificate_user_id req
    rest ← try_existing (
        get_or_fail db (or_default req.user_id "")
        >>= (λ _. delete_by_id db (or_default req.user_id "")))
    ok (or_default req.user_id "", rest)
