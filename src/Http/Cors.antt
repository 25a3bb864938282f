-- ===== src/Http/Cors.antt =====
-- The CORS options of `NewRouter` in internal/http/router.go; the middleware itself is go-chi/cors.
use api_calixio.Prelude.{
  ℕ, Bool, true, false, not, List, [], ◌∷◌, ◌++◌, ◌||◌, ◌≡◌, refl, ap, ◌∙◌, arith, any, filter,
  append-nil, append_assoc, Bool-cases, inl, inr,
}
use api_calixio.Text.{Text, codes, text_eq}

-- `any_origin` says that `AllowOriginFunc` is set, to a function that allows every origin.
pub record CorsOptions : Type 0 where
  pub allowed_origins : List Text
  pub allowed_methods : List Text
  pub allowed_headers : List Text
  pub exposed_headers : List Text
  pub allow_credentials : Bool
  pub max_age : ℕ
  pub any_origin : Bool

abbrev pub own_origin : Text
own_origin = codes "https://calixio.managetlg.com"

abbrev pub is_wildcard : Text → Bool
is_wildcard origin = text_eq origin (codes "*")

-- The loop over the origins, with `hasWildcardOrigin` and `filtered` so far.
unfoldable pub filter_origins : List Text → Bool → List Text → Bool × List Text
filter_origins [] wildcard filtered = (wildcard, filtered)
filter_origins (origin ∷ origins) wildcard filtered = elim (is_wildcard origin) [
  | true ↦ filter_origins origins true filtered
  | false ↦ filter_origins origins wildcard (filtered ++ (origin ∷ []))
]

unfoldable pub cors_options : List Text → CorsOptions
cors_options cors_origins =
    let found = filter_origins (cors_origins ++ (own_origin ∷ [])) false [] in
    record {
      allowed_origins = found.1;
      allowed_methods =
          codes "GET" ∷ codes "POST" ∷ codes "PUT" ∷ codes "DELETE" ∷ codes "OPTIONS" ∷ [];
      allowed_headers =
          codes "Accept"
          ∷ codes "Authorization"
          ∷ codes "Content-Type"
          ∷ codes "X-Requested-With"
          ∷ [];
      exposed_headers = codes "Link" ∷ codes "Set-Cookie" ∷ [];
      allow_credentials = true;
      max_age = 300;
      any_origin = found.0;
    }

abbrev pub proper : List Text → List Text
proper origins = filter (λ o. not (is_wildcard o)) origins

or_true : (b : Bool) → (b || true) ≡ true
or_true b = ground arith

filter_origins-eq :
    (origins : List Text) (wildcard : Bool) (filtered : List Text)
    → filter_origins origins wildcard filtered
      ≡ (any is_wildcard origins || wildcard, filtered ++ proper origins)
unfolding filter_origins
filter_origins-eq [] wildcard filtered = rw (append-nil, filter_origins) refl
filter_origins-eq (o ∷ os) wildcard filtered = elim (Bool-cases (is_wildcard o)) [
  | inl e ↦ rw (e, filter_origins) (filter_origins-eq os true filtered ∙ rw or_true refl)
  | inr e ↦
      rw (e, filter_origins)
        (filter_origins-eq os wildcard (filtered ++ (o ∷ [])) ∙ rw append_assoc refl)
]

proper-snoc : (os : List Text) → proper (os ++ (own_origin ∷ [])) ≡ proper os ++ (own_origin ∷ [])
unfolding text_eq
proper-snoc [] = refl
proper-snoc (o ∷ os) = ground (arith, proper-snoc os)

star-snoc :
    (os : List Text) → (any is_wildcard (os ++ (own_origin ∷ [])) || false) ≡ any is_wildcard os
unfolding text_eq
star-snoc [] = refl
star-snoc (o ∷ os) = ground (arith, star-snoc os)

proper-clean : (origins : List Text) → any is_wildcard (proper origins) ≡ false
proper-clean [] = refl
proper-clean (o ∷ os) = ground (arith, proper-clean os)

-- The origins that are allowed by name are those of the settings, and then the one of the program,
-- in this order and without any star; and every origin is allowed exactly if the settings have a
-- star. Either way credentials are allowed.
pub cors_options-ok :
    (cors_origins : List Text)
    → ((cors_options cors_origins).allowed_origins ≡ proper cors_origins ++ (own_origin ∷ []))
      × (any is_wildcard (cors_options cors_origins).allowed_origins ≡ false)
      × ((cors_options cors_origins).any_origin ≡ any is_wildcard cors_origins)
      × ((cors_options cors_origins).allow_credentials ≡ true)
unfolding cors_options text_eq
cors_options-ok cors_origins =
    let all_origins = filter_origins-eq (cors_origins ++ (own_origin ∷ [])) false [] in
    let last = proper-snoc cors_origins in
    (
      ap (λ q. q.1) all_origins ∙ last,
      ap (λ q. any is_wildcard q.1) all_origins ∙ proper-clean (cors_origins ++ (own_origin ∷ [])),
      ap (λ q. q.0) all_origins ∙ star-snoc cors_origins,
      refl,
    )
