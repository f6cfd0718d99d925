-- ===== src/Auth/Accounts.antt =====
-- backend/auth/service.py: the users and roles of `InMemoryAuthService`. The caller passes the
-- clock's value; a UUID or a salt is drawn from the platform.
use deepdive.Base.{
  ℕ, suc, ◌+◌, ◌*◌, ◌^◌, Bool, true, false, not, ◌&&◌, ◌||◌, Option, none, some, List, [], ◌∷◌, ltb,
  ◌==◌, take, drop, find, any, Dict, lookup, insert, values, Table, table_values, find_key,
  distinct, sorted, number_key, is_some,
}
use deepdive.Text.{Text, codes, text_eq, text_lt, strip, lower}
use deepdive.Text.Keyed.{text_key, pair_key}
use deepdive.Exec.{
  Outcome, ok, err, pure, gets, lift, modify, raise_if, or_raise, on_option, on_bool, ◌>>=◌, ◌>>◌,
}
use deepdive.Api.Pagination.{cursor_offset}
use deepdive.Auth.Jwt.{value_error}
use deepdive.Auth.Model.{
  PermissionRecord, RoleRecord, UserRecord, AuthError, user_already_exists, role_not_found, raised,
  AuthPlatform, AuthState, AuthAction,
}
use deepdive.Auth.Passwords.{hash_password}

-- DEFAULT_TENANT_ID, 00000000-0000-7000-8000-000000000001
abbrev pub default_tenant_id : ℕ
default_tenant_id = 28672 * 2 ^ 64 + 2 ^ 63 + 1

-- `normalize_email`
unfoldable pub normalize_email : Text → Text
unfolding strip lower
normalize_email email = lower (strip email)

-- `_user_by_email`
unfoldable pub user_by_email : Text → Dict UserRecord → Option UserRecord
unfolding text_eq
user_by_email email users = find (λ user. text_eq user.email email) (values users)

unfoldable pub named_roles : Table Text RoleRecord → List Text → Outcome AuthError (List RoleRecord)
unfolding find_key
named_roles roles [] = ok []
named_roles roles (name ∷ names) = elim (find_key name roles) [
  | none ↦ err role_not_found
  | some role ↦ (elim (named_roles roles names) [ err e ↦ err e | ok others ↦ ok (role ∷ others) ])
]

-- `_roles_by_names`
unfoldable pub roles_by_names : List Text → AuthAction (List RoleRecord)
unfolding named_roles distinct
roles_by_names role_names = do
  roles ← gets (λ s. s.roles)
  lift (named_roles roles (distinct role_names))

-- `role_names or ["member"]`
abbrev pub or_member : Option (List Text) → List Text
or_member (some (name ∷ names)) = name ∷ names
or_member _ = codes "member" ∷ []

-- `"admin" if not self._users else "member"`
abbrev pub first_role : Dict UserRecord → Text
first_role [] = codes "admin"
first_role (_ ∷ _) = codes "member"

-- `{role.id: role for role in roles}`
abbrev pub roles_by_id : Dict RoleRecord → List RoleRecord → Dict RoleRecord
roles_by_id index [] = index
roles_by_id index (role ∷ roles) = roles_by_id (insert role.id role index) roles

-- `[roles_by_id[role_id] for role_id in role_ids]`, where none is missing
unfoldable pub indexed_roles : Dict RoleRecord → List ℕ → Option (List RoleRecord)
unfolding lookup
indexed_roles index [] = some []
indexed_roles index (role_id ∷ role_ids) = elim (lookup role_id index) [
  | none ↦ none
  | some role ↦ (elim (indexed_roles index role_ids) [
    | none ↦ none
    | some others ↦ some (role ∷ others)
  ])
]

-- `UserRecord(…)`, as `create_user` makes it
abbrev pub new_user : ℕ → Text → Option Text → List RoleRecord → ℕ → UserRecord
new_user id email display_name roles now = record {
  id = id;
  tenant_id = default_tenant_id;
  email = email;
  display_name = display_name;
  is_active = true;
  created_at = now;
  updated_at = now;
  roles = roles;
}

abbrev pub put_user : UserRecord → AuthState → AuthState
put_user user s = record s { users = insert user.id user s.users }

-- One draw of `uuid` or `secrets`.
unfoldable pub draw : AuthAction ℕ
draw s = (ok s.drawn, record s { drawn = suc s.drawn })

-- The changes of `update_user` to the object.
abbrev pub changed_user : UserRecord → Option Text → Option Bool → ℕ → UserRecord
changed_user user display_name is_active now = record user {
  display_name = elim display_name [ none ↦ user.display_name | some name ↦ some name ];
  is_active = elim is_active [ none ↦ user.is_active | some active ↦ active ];
  updated_at = now;
}

-- `update_user`
unfoldable pub update_user : ℕ → Option Text → Option Bool → ℕ → AuthAction (Option UserRecord)
update_user user_id display_name is_active now = do
  found ← gets (λ s. lookup user_id s.users)
  on_option found (pure none) (λ user. do
    let changed = changed_user user display_name is_active now
    modify (put_user changed)
    pure (some changed))

-- `assign_roles`
unfoldable pub assign_roles : ℕ → List ℕ → ℕ → AuthAction (Option UserRecord)
assign_roles user_id role_ids now = do
  found ← gets (λ s. lookup user_id s.users)
  on_option found (pure none) (λ user. do
    index ← gets (λ s. roles_by_id [] (table_values s.roles))
    raise_if (any (λ role_id. not (is_some (lookup role_id index))) role_ids) role_not_found
    roles ← or_raise (indexed_roles index (distinct role_ids)) role_not_found
    let changed : UserRecord = record user { roles = roles; updated_at = now }
    modify (put_user changed)
    pure (some changed))

-- `get_user`
unfoldable pub get_user : ℕ → AuthAction (Option UserRecord)
get_user user_id = gets (λ s. lookup user_id s.users)

-- `list_roles`
unfoldable pub list_roles : AuthAction (List RoleRecord)
list_roles = gets (λ s. sorted (λ a b. text_lt a.name b.name) (table_values s.roles))

-- `list_permissions`
unfoldable pub list_permissions : AuthAction (List PermissionRecord)
list_permissions = gets (λ s. sorted (λ a b. text_lt a.name b.name) (table_values s.permissions))

-- The order of the pairs `(user.created_at, user.id)`
abbrev created_before : UserRecord → UserRecord → Bool
created_before a b =
    ltb a.created_at b.created_at || (a.created_at == b.created_at && ltb a.id b.id)

module _ (os : AuthPlatform) where
  -- `new_uuid7`
  unfoldable pub new_uuid7 : AuthAction ℕ
  new_uuid7 = do n ← draw; pure (os.uuid7 n)

  -- `list_users`
  unfoldable pub list_users : ℕ → Option Text → AuthAction (List UserRecord)
  list_users limit cursor = do
    users ← gets (λ s. sorted created_before (values s.users))
    offset ← or_raise (cursor_offset os.isdigit os.parse_int cursor) (raised value_error)
    pure (take limit (drop offset users))

  -- `create_user_without_password`
  unfoldable pub create_user_without_password :
      Text → Option Text → Option (List Text) → ℕ → AuthAction UserRecord
  unfolding user_by_email
  create_user_without_password email display_name role_names now = do
    let normalized_email = normalize_email email
    existing ← gets (λ s. user_by_email normalized_email s.users)
    raise_if (is_some existing) user_already_exists
    roles ← roles_by_names (or_member role_names)
    id ← new_uuid7
    let user = new_user id normalized_email display_name roles now
    modify (put_user user)
    pure user

  -- `self._password_hashes[user_id] = hash_password(password)`
  unfoldable pub put_password : ℕ → Text → AuthAction (Unit {0})
  put_password user_id password = do
    n ← draw
    digest ← or_raise (hash_password os password (os.token_bytes n)) (raised value_error)
    modify (λ s. record s { password_hashes = insert user_id digest s.password_hashes })

  -- `create_user`, whose body before the password is that of `create_user_without_password`
  unfoldable pub create_user :
      Text → Text → Option Text → Option (List Text) → ℕ → AuthAction UserRecord
  create_user email password display_name role_names now = do
    user ← create_user_without_password email display_name role_names now
    put_password user.id password
    pure user

  -- `reset_password`
  unfoldable pub reset_password : ℕ → Text → AuthAction Bool
  reset_password user_id password = do
    found ← gets (λ s. is_some (lookup user_id s.users))
    on_bool (not found) (pure false) (do put_password user_id password; pure true)
