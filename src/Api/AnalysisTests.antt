-- ===== src/Api/AnalysisTests.antt =====
-- Concrete runs of backend/api/in_memory.py.
use deepdive.Base.{
  inl, ℕ, zero, suc, ◌≡◌, refl, ap, ◌∙◌, false, Option, none, some, List, [], ◌∷◌, ◌==◌, arith,
  insert, lookup,
}
use deepdive.Text.{Text, codes, text_eq, has_char, is_empty}
use deepdive.Api.Records.{AnalysisRecord, AnalysisState, Scope, ApiPlatform}
use deepdive.Api.Pagination.{encode_list_cursor}
use deepdive.Api.Analyses.{
  create_analysis, cancel, get_analysis, analysis_status, stream_events, list_analyses, listed,
  record_matches_scope, new_analysis,
}
use deepdive.Api.Analyses.Pages.{CursorLaws, page_after}
use deepdive.Api.Analyses.Scopes.{hidden_analysis}
use deepdive.Api.Analyses.Cancels.{CancelRequest, cancel_all, status-cancel_all}
use deepdive.Auth.Tests.Codec.{
  plain_jwt, plain_jwt-laws, unary, letters, read_letters, read-unary, any-unary, any-letters,
  body-letters,
}

-- A time is read back from its word.
abbrev first_of : Option (List ℕ) → Option ℕ
first_of (some (n ∷ _)) = some n
first_of _ = none

abbrev plain_api : ApiPlatform
plain_api = record {
  events = record {
    uuid7 = λ n. n;
    uuid_text = λ i. i ∷ [];
    parse_uuid = λ s. elim s [ [] ↦ none | i ∷ _ ↦ some i ];
    isoformat = λ t. unary t [];
    fromisoformat = λ s. first_of (read_letters s);
  };
  jwt = plain_jwt;
  encode = λ s. s;
  decode = λ s. some s;
  isdigit = λ s. false;
  parse_int = λ s. none;
}

full_letters : (s : Text) → is_empty s ≡ false → is_empty (letters s) ≡ false
full_letters [] h = cc
full_letters (n ∷ s) h = go n
  where
    go : (m : ℕ) → is_empty (unary m (letters s)) ≡ false
    go zero = refl
    go (suc m) = refl

plain_api-laws : CursorLaws plain_api plain_jwt-laws
unfolding has_char
plain_api-laws = record {
  no_pipe = λ x. ap (has_char b'|') (body-letters x) ∙ any-letters (λ c. c == b'|') refl refl x;
  full = λ s h. ap is_empty (body-letters s) ∙ full_letters s h;
  decoded = λ s. refl;
  plain_time = λ t. any-unary (λ c. c == b'|') refl refl t [] refl;
  read_time = λ t. ap first_of (read-unary t [] [] refl);
  read_uuid = λ id. refl;
}

abbrev tenant : Scope
tenant = record { tenant_id = some 5; created_by_user_id = none }

abbrev other_tenant : Scope
other_tenant = record { tenant_id = some 6; created_by_user_id = none }

abbrev nothing : AnalysisState
nothing = record { records = []; batches = []; outbox = []; drawn = 0 }

-- Two analyses of the tenant: 0, and 3, which is newer.
abbrev two : AnalysisState
two =
    (create_analysis plain_api (codes "b") (codes "main") tenant 2
      (create_analysis plain_api (codes "a") (codes "main") tenant 1 nothing).1).1

abbrev older : AnalysisRecord
older = new_analysis plain_api (codes "a") (codes "main") tenant 1 0

abbrev recent : AnalysisRecord
recent = new_analysis plain_api (codes "b") (codes "main") tenant 2 3

page_after_example :
    list_analyses plain_api none 10 (some (encode_list_cursor plain_api recent)) tenant two
    ≡ some (older ∷ [])
unfolding create_analysis insert listed text_eq
page_after_example =
    page_after plain_api plain_jwt-laws plain_api-laws none 10 tenant two [] recent (older ∷ [])
      ((λ e. omega (arith, e), tt), (tt, tt)) refl

hidden_analysis_example :
    (get_analysis 3 other_tenant two ≡ none)
    × (analysis_status 3 other_tenant two ≡ none)
    × (stream_events 3 0 other_tenant two ≡ [])
    × (cancel plain_api 3 other_tenant 7 two ≡ (none, two))
unfolding lookup create_analysis insert record_matches_scope
hidden_analysis_example =
    hidden_analysis plain_api 3 other_tenant two 7 0
      (λ r found. inl (6, refl, λ e. ground (arith, found, e)))

-- Two requests to cancel the newer analysis, by another tenant and by its own.
abbrev two_requests : List CancelRequest
two_requests =
    record { analysis_id = 3; scope = other_tenant; now = 7 }
    ∷ record { analysis_id = 3; scope = tenant; now = 8 }
    ∷ []

status-cancel_all_example :
    (t : AnalysisRecord) × (lookup 3 (cancel_all plain_api two_requests two).records ≡ some t)
    × (t.status ≡ codes "cancelling")
    × (t.tenant_id ≡ some 5)
    × (t.created_by_user_id ≡ none)
unfolding lookup create_analysis insert record_matches_scope text_eq
status-cancel_all_example = status-cancel_all plain_api two_requests two 3 recent refl
