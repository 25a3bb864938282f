-- ===== src/Tests/Formats.antt =====
-- A format of playback states that is read back: each text with its length in front of it.
use api_calixio.Prelude.{
  ℕ, zero, suc, List, [], ◌∷◌, ◌++◌, ◌≡◌, refl, ap, arith, length, take, drop, leb, ltb,
}
use api_calixio.Text.{Text}
use api_calixio.Integer.{ℤ, pos, negsuc}
use api_calixio.Exec.{Reply, got, failed}
use api_calixio.Playback.{Formats, RoomPlaybackState}

abbrev frame : Text → List ℕ → List ℕ
frame t rest = length t ∷ t ++ rest

abbrev unframe : List ℕ → Text × List ℕ
unframe [] = ([], [])
unframe (n ∷ xs) = (take n xs, drop n xs)

abbrev sign_of : ℤ → ℕ
sign_of (pos n) = 0
sign_of (negsuc n) = 1

abbrev size_of : ℤ → ℕ
size_of (pos n) = n
size_of (negsuc n) = n

abbrev int : ℕ → ℕ → ℤ
int zero n = pos n
int (suc k) n = negsuc n

abbrev encoded : RoomPlaybackState ℕ → Text
encoded s =
    (frame s.room_id (
      frame s.media_id (
        frame s.status (
          frame s.host_id (
            sign_of s.position_ms
            ∷ size_of s.position_ms
            ∷ s.playback_rate
            ∷ s.updated_at
            ∷ s.version
            ∷ [])))))

abbrev encode : RoomPlaybackState ℕ → Reply Text
encode s = got (encoded s)

abbrev finish : Text → Text → Text → Text → List ℕ → Reply (RoomPlaybackState ℕ)
finish room media status host (sign ∷ size ∷ rate ∷ t ∷ v ∷ []) = got (record {
  room_id = room;
  media_id = media;
  status = status;
  position_ms = int sign size;
  playback_rate = rate;
  updated_at = t;
  version = v;
  host_id = host;
})
finish room media status host _ = failed 2

abbrev decode : Text → Reply (RoomPlaybackState ℕ)
decode p =
    let (room, p1) = unframe p in
    let (media, p2) = unframe p1 in
    let (status, p3) = unframe p2 in let (host, p4) = unframe p3 in finish room media status host p4

abbrev pub formats : Formats
formats = record {
  Rate = ℕ;
  one = 1;
  exceeds_zero = λ r. ltb 0 r;
  at_most_zero = λ r. leb r 0;
  encode = encode;
  decode = decode;
}

take_frame : (t rest : List ℕ) → take (length t) (t ++ rest) ≡ t
take_frame [] rest = refl
take_frame (c ∷ t) rest = ap (◌∷◌ c) (take_frame t rest)

drop_frame : (t rest : List ℕ) → drop (length t) (t ++ rest) ≡ rest
drop_frame [] rest = refl
drop_frame (c ∷ t) rest = drop_frame t rest

unframe-frame : (t rest : List ℕ) → unframe (frame t rest) ≡ (t, rest)
unframe-frame t rest = rw (take_frame t rest, drop_frame t rest) refl

int-sign : (z : ℤ) → int (sign_of z) (size_of z) ≡ z
int-sign (pos n) = refl
int-sign (negsuc n) = refl

decode-encoded : (s : RoomPlaybackState ℕ) → decode (encoded s) ≡ got s
decode-encoded s = simp (take_frame, drop_frame, int-sign)

pub decode-encode : (s : RoomPlaybackState ℕ) (p : Text) → encode s ≡ got p → decode p ≡ got s
decode-encode s p h = let same : p ≡ encoded s = ground arith in rw same (decode-encoded s)
