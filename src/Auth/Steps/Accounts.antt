-- ===== src/Auth/Steps/Accounts.antt =====
-- The methods of backend/auth/service.py that change accounts are rows of steps.
use deepdive.Base.{
  ℕ, ◌≡◌, refl, subst, ap, ◌∙◌, true, false, Bool, Option, none, some, List, [], ◌∷◌, arith, Member,
  first, later, Dict, lookup, values, lookup-insert_self, is_some, Bool-cases, inl, inr, distinct,
  ◌==◌,
}
use deepdive.Text.{Text, text_eq}
use deepdive.Text.Keyed.{text_key, pair_key}
use deepdive.Exec.{Outcome, ok, err, lift}
use deepdive.Exec.Reach.{
  done, one_step, Leads, Anything, Leads-pure, Leads-gets, Leads-or_raise, Leads-bind,
  Leads-raise_if, Leads-modify, Leads-on_option, Leads-on_bool, Leads-modify_last, Leads-imp,
}
use deepdive.Auth.Model.{UserRecord, RoleRecord, AuthPlatform, AuthState, AuthError}
use deepdive.Auth.Accounts.{
  normalize_email, user_by_email, named_roles, roles_by_names, or_member, first_role, draw,
  changed_user, update_user, assign_roles, new_uuid7, create_user_without_password, put_password,
  create_user, reset_password,
}
use deepdive.Auth.Registration.{register, linked_user, login_or_register_external_user}
use deepdive.Auth.Steps.{AuthStep, drew, added_user, changed_a_user, set_password, linked_identity}

pub Member-lookup :
    {V : Type 0} (k : ℕ) (v : V) (d : Dict V) → lookup k d ≡ some v → Member v (values d)
unfolding lookup
Member-lookup k v [] h = cc
Member-lookup k v ((j, w) ∷ d) h = elim (Bool-cases (j == k)) [
  | inl t ↦ subst (λ x. Member x (w ∷ values d)) (ground arith) (first (values d))
  | inr f ↦ later w (Member-lookup k v d (ground arith))
]

pub Member-user_by_email :
    (email : Text) (user : UserRecord) (users : Dict UserRecord)
    → user_by_email email users ≡ some user
    → Member user (values users)
unfolding user_by_email
Member-user_by_email email user [] h = cc
Member-user_by_email email user ((k, w) ∷ users) h = elim (Bool-cases (text_eq w.email email)) [
  | inl t ↦ subst (λ x. Member x (w ∷ values users)) (ground arith) (first (values users))
  | inr f ↦ later w (Member-user_by_email email user users (ground arith))
]

-- The user that is returned is stored under its id.
abbrev pub Stored : UserRecord → AuthState → Type 0
Stored user s = lookup user.id s.users ≡ some user

abbrev SameUsers {ℓ} : {A : Type ℓ} → AuthState → A → AuthState → Type 0
SameUsers s a t = t.users ≡ s.users

module _ (os : AuthPlatform) where
  draw-Leads : (s : AuthState) → Leads (AuthStep os) s draw (SameUsers s)
  unfolding draw
  draw-Leads s = record { steps = one_step (drew s); ends = refl }

  pub new_uuid7-Leads : (s : AuthState) → Leads (AuthStep os) s (new_uuid7 os) (SameUsers s)
  unfolding new_uuid7
  new_uuid7-Leads s = Leads-bind _ _ (SameUsers s) (draw-Leads s) (λ n t p same. Leads-pure _ same)

  roles_by_names-Leads :
      (names : List Text) (s : AuthState)
      → Leads (AuthStep os) s (roles_by_names names) (SameUsers s)
  unfolding roles_by_names lift
  roles_by_names-Leads names s = Leads-gets _ _ (go (named_roles s.roles (distinct names)))
    where
      go : (r : Outcome AuthError (List RoleRecord)) → Leads (AuthStep os) s (lift r) (SameUsers s)
      go (ok roles) = record { steps = done s; ends = refl }
      go (err e) = record { steps = done s; ends = tt }

  put_password-Leads :
      (user_id : ℕ) (password : Text) (s : AuthState)
      → is_some (lookup user_id s.users) ≡ true
      → Leads (AuthStep os) s (put_password os user_id password) (SameUsers s)
  unfolding put_password
  put_password-Leads user_id password s there =
      Leads-bind _ _ (SameUsers s) (draw-Leads s) (λ n t p same. Leads-or_raise _ _ _ (λ digest e.
        Leads-modify_last _
          (set_password t user_id digest
            (ap (λ users. is_some (lookup user_id users)) same ∙ there))
          same))

  pub create_user_without_password-Leads :
      (email : Text) (display_name : Option Text) (role_names : Option (List Text)) (now : ℕ)
      (s : AuthState)
      → Leads
          (AuthStep os)
          s
          (create_user_without_password os email display_name role_names now)
          Stored
  unfolding create_user_without_password
  create_user_without_password-Leads email display_name role_names now s = Leads-gets _ _ (
      Leads-raise_if _ _ _ (λ absent.
        Leads-bind _ _ (SameUsers s) (roles_by_names-Leads (or_member role_names) s)
          (λ roles t p same. Leads-bind _ _ (SameUsers t) (new_uuid7-Leads t) (λ id u q same'.
            Leads-modify _ _
              (added_user u _ email refl
                (ap (user_by_email (normalize_email email)) (same' ∙ same) ∙ ground arith))
              (Leads-pure _ (lookup-insert_self id _ u.users))))))

  pub create_user-Leads :
      (email password : Text) (display_name : Option Text) (role_names : Option (List Text))
      (now : ℕ)
      → (s : AuthState)
      → Leads (AuthStep os) s (create_user os email password display_name role_names now) Stored
  unfolding create_user
  create_user-Leads email password display_name role_names now s =
      Leads-bind _ _ Stored (create_user_without_password-Leads email display_name role_names now s)
        (λ user t p stored.
          Leads-bind _ _ (SameUsers t) (put_password-Leads user.id password t (ap is_some stored))
            (λ _ u q same. Leads-pure user (ap (lookup user.id) same ∙ stored)))

  pub register-Leads :
      (email password : Text) (display_name : Option Text) (now : ℕ) (s : AuthState)
      → Leads (AuthStep os) s (register os email password display_name now) Stored
  unfolding register
  register-Leads email password display_name now s = Leads-gets _ _ (
      Leads-raise_if _ _ _ (λ absent. Leads-gets _ _ (
        create_user-Leads (normalize_email email) password display_name
          (some (first_role s.users ∷ [])) now s)))

  pub reset_password-Leads :
      (user_id : ℕ) (password : Text) (s : AuthState)
      → Leads (AuthStep os) s (reset_password os user_id password) Anything
  unfolding reset_password
  reset_password-Leads user_id password s = Leads-gets _ _ (
      Leads-on_bool _ _ _ (λ missing. Leads-pure false tt)
        (λ there.
          Leads-bind _ _ (SameUsers s) (put_password-Leads user_id password s (ground arith))
            (λ _ t p same. Leads-pure true tt)))

  pub assign_roles-Leads :
      (user_id : ℕ) (role_ids : List ℕ) (now : ℕ) (s : AuthState)
      → Leads (AuthStep os) s (assign_roles user_id role_ids now) Anything
  unfolding assign_roles
  assign_roles-Leads user_id role_ids now s = Leads-gets _ _ (
      Leads-on_option _ _ _ (λ none_. Leads-pure none tt)
        (λ user found. Leads-gets _ _ (
          Leads-raise_if _ _ _ (λ known. Leads-or_raise _ _ _ (λ roles e.
            Leads-modify _ _
              (changed_a_user s (record user { roles = roles; updated_at = now }) user user_id found
                refl refl)
              (Leads-pure _ tt))))))

  linked_user-Leads :
      (email : Text) (display_name : Option Text) (now : ℕ) (s : AuthState)
      → Leads
          (AuthStep os)
          s
          (linked_user os email display_name now)
          (λ user t. Member user (values t.users))
  unfolding linked_user
  linked_user-Leads email display_name now s = Leads-gets _ _ (
      Leads-gets _ _ (
        Leads-on_option _ _ _
          (λ absent.
            Leads-imp (λ user t stored. Member-lookup user.id user t.users stored)
              (create_user_without_password-Leads email display_name
                (some (first_role s.users ∷ [])) now s))
          (λ user found. Leads-pure user (Member-user_by_email email user s.users found))))

  pub external-Leads :
      (provider account : Text) (login : Option Text) (email : Text) (email_verified : Bool)
      → (display_name : Option Text) (now : ℕ) (s : AuthState)
      → Leads
          (AuthStep os)
          s
          (login_or_register_external_user os provider account login email email_verified
            display_name now)
          Anything
  unfolding login_or_register_external_user
  external-Leads provider account login email email_verified display_name now s = Leads-gets _ _ (
      Leads-on_option _ _ _
        (λ unknown.
          Leads-bind _ _ (λ user t. Member user (values t.users))
            (linked_user-Leads (normalize_email email) display_name now s)
            (λ user t p there.
              Leads-modify _ _ (linked_identity t (provider, account) _ user there refl)
                (Leads-pure user tt)))
        (λ known found.
          Leads-gets _ _
            (Leads-or_raise _ _ _ (λ user e. Leads-raise_if _ _ _ (λ active. Leads-pure user tt)))))

  pub update_user-Leads :
      (user_id : ℕ) (display_name : Option Text) (is_active : Option Bool) (now : ℕ) (s : AuthState)
      → Leads (AuthStep os) s (update_user user_id display_name is_active now) Anything
  unfolding update_user
  update_user-Leads user_id display_name is_active now s = Leads-gets _ _ (
      Leads-on_option _ _ _ (λ none_. Leads-pure none tt)
        (λ user found.
          Leads-modify _ _
            (changed_a_user s (changed_user user display_name is_active now) user user_id found refl
              refl)
            (Leads-pure _ tt)))
