-- ===== src/Text/Keyed.antt =====
-- Texts and pairs of texts as the keys of a table. Models no file of the repository.
use deepdive.Base.{◌≡◌, ◌↔◌, true, Bool, ◌&&◌, arith, Key}
use deepdive.Text.{Text, text_eq}
use deepdive.Text.Lemmas.{text_eq_iff}

instance abbrev pub text_key : Key Text
text_key = record { same = text_eq; same_iff = text_eq_iff }

abbrev pub pair_eq : Text × Text → Text × Text → Bool
pair_eq (a, b) (c, d) = text_eq a c && text_eq b d

pub pair_eq_iff : (p q : Text × Text) → (pair_eq p q ≡ true) ↔ (p ≡ q)
pair_eq_iff (a, b) (c, d) = (
  λ h. ground (arith, text_eq_iff a c, text_eq_iff b d),
  λ h. ground (arith, text_eq_iff a c, text_eq_iff b d),
)

instance abbrev pub pair_key : Key (Text × Text)
pair_key = record { same = pair_eq; same_iff = pair_eq_iff }
