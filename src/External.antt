-- ===== src/External.antt =====
-- What the program calls and does not contain. Each is a function of the state `X` of everything
-- outside, which covers the clock, the random source, the network and the other services, so it
-- may answer anything and may fail at any call.
use api_calixio.Prelude.{ℕ, Bool, Option, List}
use api_calixio.Text.{Text}
use api_calixio.Integer.{ℤ}
use api_calixio.Exec.{Reply}

-- The claims of an access token: jwt.RegisteredClaims with the username of internal/http/authn.
pub record Claims : Type 0 where
  pub jti : Text
  pub subject : Text
  pub issued_at : ℕ
  pub expires_at : ℕ
  pub username : Text

-- What `HeadObject` of the S3 client tells of an object.
pub record ObjectHead : Type 0 where
  pub content_length : ℤ
  pub content_type : Text

pub record External : Type 1 where
  pub X : Type 0
  -- One statement sent to Postgres: it goes through or fails with an error of the driver.
  pub query : X → Reply (Unit {0}) × X
  -- The driver's error for a violated constraint, and the SQLSTATE that `err.(*pgconn.PgError)`
  -- finds in an error of the driver, if that type assertion succeeds.
  pub violation : ℕ
  pub pg_code : ℕ → Option Text
  -- `now()` of Postgres, and `time.Now`
  pub db_now : X → ℕ × X
  pub now : X → ℕ × X
  -- `rand.Read` of so many bytes, and `uuid.NewString`
  pub random : ℕ → X → Reply (List ℕ) × X
  pub uuid : X → Text × X
  -- `unicode.ToLower` of a code point from 128 on
  pub to_lower : ℕ → ℕ
  pub sha256 : Text → List ℕ
  pub bcrypt_hash : Text → X → Reply Text × X
  pub bcrypt_match : Text → Text → Bool
  -- golang-jwt: signing with a secret, and parsing with the checks of the package
  pub jwt_sign : Text → Claims → Reply Text
  pub jwt_parse : Text → Text → ℕ → Reply Claims
  -- LiveKit: its room service and its access tokens
  pub lk_create_room : Text → X → Reply (Unit {0}) × X
  pub lk_delete_room : Text → X → Reply (Unit {0}) × X
  pub lk_token : Text → Text → Text → X → Reply Text × X
  -- Redis strings and sets
  pub redis_get : Text → X → Reply (Option Text) × X
  pub redis_set : Text → Text → ℤ → X → Reply (Unit {0}) × X
  pub redis_del : Text → X → Reply (Unit {0}) × X
  pub redis_sadd : Text → Text → X → Reply (Unit {0}) × X
  pub redis_srem : Text → Text → X → Reply (Unit {0}) × X
  -- S3: presigned URLs, `HeadObject` (with no head where the error code says that there is no
  -- object), whole objects, the number of pages that a listing
  -- runs to and its pages by number, and deleting some keys
  pub presign_put : Text → Text → Text → ℤ → X → Reply Text × X
  pub presign_get : Text → Text → ℤ → X → Reply Text × X
  pub head_object : Text → Text → X → Reply (Option ObjectHead) × X
  pub get_object : Text → Text → X → Reply Text × X
  pub page_count : Text → Text → X → ℕ
  pub list_page : Text → Text → ℕ → X → Reply (List Text) × X
  pub delete_objects : Text → List Text → X → Reply (Unit {0}) × X
  -- One object written, with its content type and its ACL where these are not empty, and one deleted
  pub put_object : Text → Text → Text → Text → Text → X → Reply (Unit {0}) × X
  pub delete_object : Text → Text → X → Reply (Unit {0}) × X
