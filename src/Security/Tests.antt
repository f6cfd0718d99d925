-- ===== src/Security/Tests.antt =====
-- Runs of the secret path policy.
use deepdive.Base.{◌≡◌, refl, true, false, [], ◌∷◌, first, later}
use deepdive.Text.{
  is_space, Text, codes, member, strip_by, replace_char, join, lower, split, strip, text_eq,
  starts_with,
}
use deepdive.Security.SecretPaths.{is_secret_path}
use deepdive.Text.Lemmas.{member-Member}
use deepdive.Security.SecretPaths.Parts.{secret_directory_lem}

abbrev key_path : Text
key_path = codes "Deploy\\.SSH\\config"

secret_directory_lem_example :
    (is_secret_path (codes "Deploy/.SSH/config") ≡ true) × (is_secret_path key_path ≡ true)
unfolding lower member text_eq is_space join
secret_directory_lem_example =
    secret_directory_lem (codes "Deploy" ∷ codes ".SSH" ∷ []) (codes "config") (codes ".SSH")
      ((refl, refl), ((refl, refl), ((refl, refl), tt)))
      (later (codes "Deploy") (first (codes "config" ∷ [])))
      (later (codes ".git") (first (codes ".aws" ∷ codes ".azure" ∷ codes ".gcp" ∷ [])))
      (λ m. cc (member-Member (codes "config") m))

-- An environment template is not secret even in a secret directory.
template_in_secret_directory : is_secret_path (codes ".ssh/.env.example") ≡ false
unfolding is_secret_path split strip_by strip replace_char lower starts_with join
template_in_secret_directory = refl

-- A configuration of Docker is secret at the root only.
nested_docker : is_secret_path (codes "home/.docker/config") ≡ false
unfolding is_secret_path split strip_by strip replace_char lower starts_with join
nested_docker = refl

pem_file : is_secret_path (codes "certs/server.PEM") ≡ true
unfolding is_secret_path split strip_by strip replace_char lower starts_with join
pem_file = refl
