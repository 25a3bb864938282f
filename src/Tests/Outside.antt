-- ===== src/Tests/Outside.antt =====
-- An outside in which every call answers: a counter that serves as the clock and as the source of
-- random bytes, and a Redis that is a list of its writes, the last one first.
use api_calixio.Prelude.{
  ℕ, ◌+◌, Bool, true, false, ◌&&◌, Option, none, some, List, [], ◌∷◌, ◌≡◌, refl, if◌then◌else◌,
}
use api_calixio.Text.{Text, codes, text_eq}
use api_calixio.Text.Laws.{text_eq_refl}
use api_calixio.Integer.{ℤ, pos}
use api_calixio.External.{Claims, External}
use api_calixio.Exec.{got, failed}

pub record Outside : Type 0 where
  pub ticks : ℕ
  pub writes : List (Text × Text)
  pub sets : Text → Text → Bool

abbrev tick : Outside → Outside
tick x = record x { ticks = x.ticks + 1 }

abbrev pub put : Text → Text → Bool → Outside → Outside
put k v b x = record x { sets = λ k' v'. if text_eq k' k && text_eq v' v then b else x.sets k' v' }

abbrev pub lookup : Text → List (Text × Text) → Option Text
lookup k [] = none
lookup k (e ∷ es) = let rest = lookup k es in if text_eq e.0 k then some e.1 else rest

abbrev pub token_claims : Claims
token_claims = record {
  jti = codes "j1";
  subject = codes "u1";
  issued_at = 1;
  expires_at = 2;
  username = [];
}

-- `broken` says that LiveKit does not delete rooms.
abbrev pub outside : Bool → External
outside broken = record {
  X = Outside;
  query = λ x. (got tt, x);
  violation = 7;
  pg_code = λ n. none;
  db_now = λ x. (x.ticks, x);
  now = λ x. (x.ticks, x);
  random = λ n x. (got (x.ticks ∷ []), tick x);
  uuid = λ x. (x.ticks ∷ [], tick x);
  to_lower = λ c. c;
  sha256 = λ t. t;
  bcrypt_hash = λ p x. (got p, x);
  bcrypt_match = text_eq;
  jwt_sign = λ secret c. got c.jti;
  jwt_parse = λ secret token t. got token_claims;
  lk_create_room = λ name x. (got tt, x);
  lk_delete_room = λ name x. (if broken then failed 5 else got tt, x);
  lk_token = λ identity room name x. (got identity, x);
  redis_get = λ k x. (got (lookup k x.writes), x);
  redis_set = λ k v ttl x. (got tt, record x { writes = (k, v) ∷ x.writes });
  redis_del = λ k x. (got tt, x);
  redis_sadd = λ k v x. (got tt, put k v true x);
  redis_srem = λ k v x. (got tt, put k v false x);
  presign_put = λ bucket key kind ttl x. (got key, x);
  presign_get = λ bucket key ttl x. (got key, x);
  head_object = λ bucket key x.
      (got (some (record { content_length = pos 10; content_type = codes "video/mp4" })), x);
  get_object = λ bucket key x. (got (codes "#EXTM3U"), x);
  page_count = λ bucket prefix x. 1;
  list_page = λ bucket prefix i x. (got (codes "users/o/media/m/original/a.mp4" ∷ []), x);
  delete_objects = λ bucket keys x. (got tt, tick x);
  put_object = λ bucket key kind acl body x. (got tt, x);
  delete_object = λ bucket key x. (got tt, x);
}

abbrev pub ext : External
ext = outside false

abbrev pub start : Outside
start = record { ticks = 100; writes = []; sets = λ k v. false }

-- Redis returns what was set.
pub redis_kept :
    (k p : Text) (ttl : ℤ) (x : Outside)
    → (ext.redis_set k p ttl x).0 ≡ got tt
    → (ext.redis_get k (ext.redis_set k p ttl x).1).0 ≡ got (some p)
redis_kept k p ttl x h = rw (text_eq_refl k) refl

pub set_kept : (k v : Text) (b : Bool) (x : Outside) → (put k v b x).sets k v ≡ b
set_kept k v b x = rw (text_eq_refl k, text_eq_refl v) refl
