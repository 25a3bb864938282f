-- ===== src/Repository/Users.antt =====
-- internal/repository/users.go
use api_calixio.Prelude.{Bool, none, some, [], ◌∷◌, ◌++◌, ◌||◌, find, any, if◌then◌else◌}
use api_calixio.Text.{Text, codes, text_eq}
use api_calixio.Records.{User}
use api_calixio.External.{External}
use api_calixio.Exec.{
  Exec, Error, ok, err, external, already_exists, not_found, pure, raise, gets, modify, attempt,
  from_option, call, observe, ◌>>=◌, ◌>>◌,
}

abbrev pub unique_code : Text
unique_code = codes "23505"

abbrev pub has_email : Text → User → Bool
has_email email u = text_eq u.email email

-- `id` is the primary key and `email` is unique.
abbrev pub user_conflicts : User → User → Bool
user_conflicts new u = text_eq u.id new.id || has_email new.email u

module _ (ext : External) where
  open ext use {X, query, violation, pg_code, db_now}

  -- The INSERT with its trigger, which fills in `created_at`.
  insert_user : User → Exec X User
  insert_user user = do
    call query
    taken ← gets (λ w. any (user_conflicts user) w.users)
    created ← observe db_now
    if taken then raise (external violation) else do
      let row = record user { created_at = created }
      modify (λ w. record w { users = w.users ++ (row ∷ []) })
      pure row

  -- `if pgErr, ok := err.(*pgconn.PgError); ok && pgErr.Code == "23505"`
  translate_unique : Error → Error
  translate_unique (external n) = elim (pg_code n) [
    | some code ↦ if text_eq code unique_code then already_exists else external n
    | none ↦ external n
  ]
  translate_unique e = e

  unfoldable pub create_user : User → Exec X User
  unfolding insert_user translate_unique
  create_user user = do
    r ← attempt (insert_user user)
    elim r [ ok row ↦ pure row | err e ↦ raise (translate_unique e) ]

  unfoldable pub get_by_email : Text → Exec X User
  get_by_email email = do
    call query
    found ← gets (λ w. find (has_email email) w.users)
    from_option found not_found
