-- ===== src/Http/Reading.antt =====
-- What several handlers begin with: internal/http/httputil/response.go and validate.go.
use api_calixio.Prelude.{ℕ, List, [], ◌∷◌, if◌then◌else◌}
use api_calixio.Text.{Text, codes, is_empty}
use api_calixio.External.{External}
use api_calixio.Exec.{Exec, pure}
use api_calixio.Upload.{lower}
use api_calixio.Http.Message.{Response, respond_error, respond_validation_error}
use api_calixio.Http.Codec.{decoded, no_body, malformed, Body, Site}

module _ (ext : External) (site : Site ext) where
  open ext use {X, to_lower}
  open site use {formats}

  abbrev pub Handler : Type 0
  Handler = Exec X (Response formats.Rate)

  abbrev pub fail : ℕ → Text → Handler
  fail status code = pure (respond_error status code)

  -- The errors of the validator, and the handler for a value that is valid.
  abbrev valid_or_fields : List (Text × Text) → Handler → Handler
  valid_or_fields [] next = next
  valid_or_fields (e ∷ es) next = pure (respond_validation_error (lower to_lower) (e ∷ es))

  -- `DecodeJSON` and `ValidateStruct` with `RespondValidationError`
  abbrev pub read_body : {A : Type 0} → Body A → Text → (A → Handler) → Handler
  read_body b text next = elim (b.decode text) [
    | decoded a ↦ valid_or_fields (b.validate a) (next a)
    | no_body ↦ fail 400 (codes "invalid_json")
    | malformed ↦ fail 400 (codes "invalid_json")
  ]

  -- The same with `RespondError` for a value that is not valid.
  abbrev pub read_checked : {A : Type 0} → Body A → Text → (A → Handler) → Handler
  read_checked b text next = elim (b.decode text) [
    | decoded a ↦ elim (b.validate a) [
      | [] ↦ next a
      | e ∷ es ↦ fail 400 (codes "validation_failed")
    ]
    | no_body ↦ fail 400 (codes "invalid_json")
    | malformed ↦ fail 400 (codes "invalid_json")
  ]

  -- `if userID == "" { ... }` and the like
  abbrev pub unless_empty : Text → ℕ → Text → Handler → Handler
  unless_empty t status code next = if is_empty t then fail status code else next
