-- ===== src/Tests/Accounts.antt =====
-- A table of users as a list, and a hash that puts a mark in front.
use openvair_rde_linter.Base.{
  or_default, String, ◌<>◌, Bool, true, false, ◌≡◌, refl, ap, subst, Option, none, some, List, [],
  ◌∷◌, ◌==◌, ==_self, string_eq, String-discrete, length, arith, if◌then◌else◌, ◌-◌,
}
use openvair_rde_linter.Result.{Exn, ok, err}
use openvair_rde_linter.Users.{
  UserData, UserInfo, User, Data, Session, Bcrypt, authenticate_user, create_user, change_password,
  delete_user,
}
use openvair_rde_linter.Users.Accounts.{
  InsertsOne, DeletesKey, VerifiesHash, create_then_authenticate, create_user_guarded,
  user_does_not_exist_lem,
}

abbrev has_name : String → User → Bool
has_name name user = elim user.info.username [ none ↦ false | some n ↦ n == name ]

abbrev find : List User → String → Option User
find [] key = none
find (u ∷ us) key = if u.id == key then some u else find us key

abbrev without : List User → String → List User
without [] key = []
without (u ∷ us) key = let rest = without us key in if u.id == key then rest else u ∷ rest

abbrev named : List User → String → List User
named [] name = []
named (u ∷ us) name = let rest = named us name in if has_name name u then u ∷ rest else rest

abbrev insert_named : List User → UserInfo → Option String → Option (User × List User)
insert_named db info none = none
insert_named db info (some name) = elim (named db name) [
  | [] ↦ some (record { id = name; info = info }, record { id = name; info = info } ∷ db)
  | _ ∷ _ ↦ none
]

abbrev table : Session (List User)
table = record {
  get = find;
  by_name = named;
  insert = λ db info. insert_named db info info.username;
  set_password = λ db key hashed. db;
  delete = λ db key. (length db - length (without db key), without db key);
}

abbrev bcrypt : Bcrypt
bcrypt = record {
  hash = λ password. "#" <> password;
  verify = λ password hashed. some (hashed == "#" <> password);
}

table-DeletesKey : DeletesKey table
table-DeletesKey [] key = refl
table-DeletesKey (u ∷ us) key = ground (arith, table-DeletesKey us key)

bcrypt-VerifiesHash : VerifiesHash bcrypt
bcrypt-VerifiesHash password = ap some (==_self ("#" <> password))

abbrev row : String → UserInfo → User
row name info = record { id = name; info = info }

named-row :
    (db : List User) (info : UserInfo) (name : String)
    → info.username ≡ some name
    → named db name ≡ []
    → named (row name info ∷ db) name ≡ row name info ∷ []
named-row db info name has free = rw (named, has_name, has, ==_self name, free) refl

some-injective : {A : Type 0} {a b : A} → some a ≡ some b → a ≡ b
some-injective h = cc

table-InsertsOne : InsertsOne table
table-InsertsOne db after info name user has h = by_others (named db name) refl
  where
    by_others :
        (others : List User)
        → named db name ≡ others
        → (named after name ≡ user ∷ []) × (user.info ≡ info)
    by_others [] free =
        subst (λ (p : User × List User). (named p.1 name ≡ p.0 ∷ []) × (p.0.info ≡ info))
          (some-injective (rw (has, insert_named, free) at h))
          (named-row db info name has free, refl)
    by_others (u ∷ us) there = cc (rw (has, insert_named, there) at h)

abbrev request : Data
request = record {
  user_id = some "root";
  user_data = some (record { id = some "root"; is_superuser = true });
  username = some "ann";
  password = some "secret";
  new_password = none;
  email = none;
  is_superuser = none;
}

abbrev ann : User
ann = row "ann" (record {
  username = some "ann";
  hashed_password = "#secret";
  email = none;
  is_superuser = false;
})

create_run : create_user table bcrypt [] request ≡ ok (ann, ann ∷ [])
unfolding create_user String-discrete
create_run = refl

create_then_authenticate_example : authenticate_user table bcrypt (ann ∷ []) request ≡ ok ann
create_then_authenticate_example =
    create_then_authenticate table bcrypt table-InsertsOne bcrypt-VerifiesHash [] (ann ∷ []) request
      request "ann" ann refl refl refl create_run

create_user_guarded_example :
    (user_data : UserData) × (request.user_data ≡ some user_data)
    × (user_data.is_superuser ≡ true)
    × (user_data.id ≡ some "root")
unfolding or_default
create_user_guarded_example = create_user_guarded table bcrypt [] (ann ∷ []) request ann create_run

-- A user deletes itself.
abbrev farewell : Data
farewell = record {
  user_id = some "ann";
  user_data = some (record { id = some "ann"; is_superuser = false });
  username = none;
  password = none;
  new_password = none;
  email = none;
  is_superuser = none;
}

delete_run : delete_user table bcrypt (ann ∷ []) farewell ≡ ok ("ann", [])
unfolding delete_user String-discrete
delete_run = refl

user_does_not_exist_lem_example :
    (¬ change_password table bcrypt [] farewell ≡ err Exn.user_does_not_exist)
    × (¬ delete_user table bcrypt [] farewell ≡ err Exn.user_does_not_exist)
user_does_not_exist_lem_example = user_does_not_exist_lem table bcrypt [] farewell
