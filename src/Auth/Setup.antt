-- ===== src/Auth/Setup.antt =====
-- backend/auth/service.py: the built-in permissions and roles, and the constructor of
-- `InMemoryAuthService`.
use deepdive.Base.{
  ℕ, suc, ◌+◌, Option, none, some, List, [], ◌∷◌, ◌++◌, map, Table, find_key, length,
}
use deepdive.Text.{Text, codes}
use deepdive.Text.Keyed.{text_key}
use deepdive.Auth.Model.{PermissionRecord, RoleRecord, AuthPlatform, AuthState}

-- PERMISSION_DESCRIPTIONS
abbrev pub permission_descriptions : List (Text × Text)
permission_descriptions =
    (codes "analysis:create", codes "Create analysis jobs")
    ∷ (codes "analysis:read", codes "Read analysis jobs")
    ∷ (codes "analysis:cancel", codes "Cancel analysis jobs")
    ∷ (codes "analysis:events", codes "Read analysis event streams")
    ∷ (codes "documents:read", codes "Read analysis documents")
    ∷ (codes "documents:delete", codes "Delete analysis documents")
    ∷ (codes "users:read", codes "Read users")
    ∷ (codes "users:write", codes "Manage users")
    ∷ (codes "roles:read", codes "Read roles")
    ∷ (codes "roles:write", codes "Manage roles")
    ∷ []

-- ROLE_PERMISSIONS
abbrev pub role_permissions : List (Text × List Text)
role_permissions =
    (codes "admin", map (λ p. p.0) permission_descriptions)
    ∷ (
      codes "member",
      codes "analysis:create"
          ∷ codes "analysis:read"
          ∷ codes "analysis:cancel"
          ∷ codes "analysis:events"
          ∷ codes "documents:read"
          ∷ [],
    )
    ∷ (
      codes "viewer",
      codes "analysis:read" ∷ codes "analysis:events" ∷ codes "documents:read" ∷ [],
    )
    ∷ []

-- `[table[name] for name in names]`; `none` is a `KeyError`
abbrev pub pick {ℓ} : {V : Type ℓ} → Table Text V → List Text → Option (List V)
pick table [] = some []
pick table (name ∷ names) = elim (find_key name table) [
  | none ↦ none
  | some v ↦ (elim (pick table names) [ none ↦ none | some vs ↦ some (v ∷ vs) ])
]

module _ (os : AuthPlatform) where
  -- `self._permissions`, with the UUIDs from the n-th on
  abbrev pub new_permissions : ℕ → List (Text × Text) → Table Text PermissionRecord
  new_permissions n [] = []
  new_permissions n ((name, description) ∷ rest) =
      (name, record { id = os.uuid7 n; name = name; description = description })
      ∷ new_permissions (suc n) rest

  -- `self._roles`
  abbrev pub new_roles :
      Table Text PermissionRecord → ℕ → List (Text × List Text) → Option (Table Text RoleRecord)
  new_roles permissions n [] = some []
  new_roles permissions n ((name, names) ∷ rest) = elim (pick permissions names) [
    | none ↦ none
    | some granted ↦ (elim (new_roles permissions (suc n) rest) [
      | none ↦ none
      | some roles ↦ some (
          (
            name,
            record {
              id = os.uuid7 n;
              name = name;
              description = codes "Built-in " ++ (name ++ codes " role");
              permissions = granted;
            },
          )
          ∷ roles)
    ])
  ]

  -- `InMemoryAuthService.__init__`; `none` is a `KeyError`
  unfoldable pub new_service : Option AuthState
  unfolding find_key
  new_service =
      let permissions = new_permissions 0 permission_descriptions in
      elim (new_roles permissions (length permission_descriptions) role_permissions) [
        | none ↦ none
        | some roles ↦ some (record {
          permissions = permissions;
          roles = roles;
          users = [];
          password_hashes = [];
          external_identities = [];
          refresh_tokens = [];
          drawn = length permission_descriptions + length role_permissions;
        })
      ]
