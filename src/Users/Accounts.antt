-- ===== src/Users/Accounts.antt =====
-- openvair/modules/user/service_layer/services.py: the operations on users, over any session and any bcrypt with the behaviour that
-- SQLAlchemy, the columns of the table, and passlib document.
use openvair_rde_linter.Base.{
  sym, or_default, String, true, ◌≡◌, refl, ap, ◌∙◌, subst, inl, inr, Option, none, some, [], ◌∷◌,
  string_eq, nat_eq, Bool-cases, arith,
}
use openvair_rde_linter.Result.{Exn, Result, ok, err, ◌>>=◌, bind_returns, ok-injective}
use openvair_rde_linter.Users.{
  UserData, UserInfo, User, Data, Session, Bcrypt, check_is_super_user, is_current,
  verificate_user_id, try_existing, get_or_fail, delete_by_id, get_by_name, verify_password,
  get_user, authenticate_user, prepare_user_info, add_user, create_user, change_password,
  delete_user,
}

-- A row that was added is the only one with its name, since the column is unique, and has the
-- columns that were given.
abbrev pub InsertsOne : {Db : Type 0} → Session Db → Type 0
InsertsOne {Db} session =
    (db after : Db) (info : UserInfo) (name : String) (user : User)
    → info.username ≡ some name
    → session.insert db info ≡ some (user, after)
    → (session.by_name after name ≡ user ∷ []) × (user.info ≡ info)

-- No row is left with the key of a delete.
abbrev pub DeletesKey : {Db : Type 0} → Session Db → Type 0
DeletesKey {Db} session =
    (db : Db) (key : String) → session.get (session.delete db key).1 key ≡ none

-- A password verifies against its own hash.
abbrev pub VerifiesHash : Bcrypt → Type 0
VerifiesHash bcrypt =
    (password : String) → bcrypt.verify password (bcrypt.hash password) ≡ some true

try_existing-ok : {A : Type 0} (r : Result A) (a : A) → try_existing r ≡ ok a → r ≡ ok a
unfolding try_existing
try_existing-ok (ok b) a h = h
try_existing-ok (err raised) a h = cc

verificate_user_id-ok :
    (req : Data)
    → verificate_user_id req ≡ ok tt
    → is_current (or_default req.user_id "") req.user_data ≡ true
unfolding verificate_user_id
verificate_user_id-ok req h =
    elim (Bool-cases (is_current (or_default req.user_id "") req.user_data)) [
      | inl same ↦ same
      | inr other ↦ cc (rw other at h)
    ]

module _ {Db : Type 0} (session : Session Db) (bcrypt : Bcrypt) where
  add_user-inserted :
      (db after : Db) (info : UserInfo) (user : User)
      → add_user session bcrypt db info ≡ ok (user, after)
      → session.insert db info ≡ some (user, after)
  unfolding add_user
  add_user-inserted db after info user h = by_outcome (session.insert db info) h
    where
      by_outcome :
          (o : Option (User × Db))
          → (elim o as (λ _. Result (User × Db)) [
            | none ↦ err Exn.user_exists
            | some created ↦ ok created
          ])
            ≡ ok (user, after)
          → o ≡ some (user, after)
      by_outcome none e = cc
      by_outcome (some created) e = ap some (ok-injective e)

  -- If the session keeps names unique and bcrypt verifies its own hashes, then a user that
  -- create_user returns can log in on the database that it leaves, by the name and the password of
  -- the request.
  pub create_then_authenticate :
      InsertsOne session
      → VerifiesHash bcrypt
      → (db after : Db) (req login : Data) (name : String) (user : User) → req.username ≡ some name
      → login.username ≡ some name
      → login.password ≡ req.password
      → create_user session bcrypt db req ≡ ok (user, after)
      → authenticate_user session bcrypt after login ≡ ok user
  unfolding create_user authenticate_user prepare_user_info get_by_name verify_password or_default
  create_then_authenticate inserts verifies db after req login name user named same_name same_word
        h =
      let (_, _, checked) = bind_returns (check_is_super_user req) h in
      let (_, _, added) = bind_returns (verificate_user_id req) checked in
      let (found, columns) =
        inserts db after (prepare_user_info session bcrypt req) name user named
          (add_user-inserted db after (prepare_user_info session bcrypt req) user added) in
      rw (same_name, get_by_name, or_default, found, same_word, columns, verify_password, verifies)
        refl

  delete_by_id-left :
      (db rest : Db) (key : String)
      → delete_by_id session bcrypt db key ≡ ok rest
      → (session.delete db key).1 ≡ rest
  unfolding delete_by_id
  delete_by_id-left db rest key h = elim (Bool-cases (nat_eq (session.delete db key).0 0)) [
    | inl nothing ↦ cc (rw nothing at h)
    | inr some_rows ↦ ok-injective (rw some_rows at h)
  ]

  get_or_fail-none :
      (db : Db) (key : String)
      → session.get db key ≡ none
      → get_or_fail session bcrypt db key ≡ err Exn.entity_not_found
  unfolding get_or_fail
  get_or_fail-none db key h = rw (get_or_fail, h) refl

  -- If a delete leaves no row with its key, then after delete_user has returned, get_user raises
  -- EntityNotFoundError for the same request.
  pub delete_then_get :
      DeletesKey session
      → (db after : Db) (req : Data) (user_id : String)
      → delete_user session bcrypt db req ≡ ok (user_id, after)
      → get_user session bcrypt after req ≡ err Exn.entity_not_found
  unfolding delete_user get_user
  delete_then_get deletes db after req user_id h =
      let key = or_default req.user_id "" in
      let (_, _, checked) = bind_returns (verificate_user_id req) h in
      let (rest, tried, whole) =
        bind_returns
          (try_existing
            (get_or_fail session bcrypt db key >>= (λ _. delete_by_id session bcrypt db key)))
          checked in
      let (_, _, deleted) =
        bind_returns (get_or_fail session bcrypt db key) (try_existing-ok _ rest tried) in
      let left : (session.delete db key).1 ≡ after =
        delete_by_id-left db rest key deleted
        ∙ ap (λ (x : String × Db). x.1) (ok-injective whole) in
      get_or_fail-none after key (subst (λ d. session.get d key ≡ none) left (deletes db key))

  check_is_super_user-ok :
      (req : Data)
      → check_is_super_user req ≡ ok tt
      → (user_data : UserData) × (req.user_data ≡ some user_data) × (user_data.is_superuser ≡ true)
  unfolding check_is_super_user
  check_is_super_user-ok req h = ground arith

  is_current-own :
      (user_id : String) (user_data : UserData)
      → is_current user_id (some user_data) ≡ true
      → user_data.id ≡ some user_id
  unfolding is_current
  is_current-own user_id user_data h = ground arith

  -- create_user returns only if the request tells which user sends it, that user is a superuser, and
  -- its id is the one that the request gives as `user_id`, the empty text if it gives none.
  pub create_user_guarded :
      (db after : Db) (req : Data) (user : User)
      → create_user session bcrypt db req ≡ ok (user, after)
      → (user_data : UserData) × (req.user_data ≡ some user_data)
        × (user_data.is_superuser ≡ true)
        × (user_data.id ≡ some (or_default req.user_id ""))
  unfolding create_user
  create_user_guarded db after req user h =
      let (_, super, checked) = bind_returns (check_is_super_user req) h in
      let (_, same, _) = bind_returns (verificate_user_id req) checked in
      let (sender, sent, is_super) = check_is_super_user-ok req super in
      let own =
        is_current-own (or_default req.user_id "") sender (
          ap (is_current (or_default req.user_id "")) (sym sent)
          ∙ verificate_user_id-ok req same) in
      (sender, sent, is_super, own)

  change_never :
      (db : Db) (req : Data) → ¬ change_password session bcrypt db req ≡ err Exn.user_does_not_exist
  unfolding change_password try_existing get_or_fail
  change_never db req h = ground arith

  delete_never :
      (db : Db) (req : Data) → ¬ delete_user session bcrypt db req ≡ err Exn.user_does_not_exist
  unfolding delete_user try_existing get_or_fail delete_by_id verificate_user_id
  delete_never db req h = ground arith

  -- change_password and delete_user never raise UserDoesNotExist, whatever the database holds.
  pub user_does_not_exist_lem :
      (db : Db) (req : Data)
      → (¬ change_password session bcrypt db req ≡ err Exn.user_does_not_exist)
        × (¬ delete_user session bcrypt db req ≡ err Exn.user_does_not_exist)
  user_does_not_exist_lem db req = (change_never db req, delete_never db req)
