-- ===== src/Exec.antt =====
-- Errors, the state that the services share, and the monad of their methods. What was written
-- before an error stays written, so the state comes back beside an error too.
pub mod Quiet
use api_calixio.Prelude.{
  refl, ap, sym, ◌≡◌, arith, ℕ, Bool, true, false, Option, none, some, List, not, if◌then◌else◌,
  ◌⊎◌, inl, inr,
}
use api_calixio.Text.{Text}
use api_calixio.Records.{User, Session, Room, Media}

-- The sentinel errors of internal/repository and internal/service, the errors that the transcoder
-- makes of others (with what a command wrote), and every other error as a number that only its
-- origin understands.
pub data Error : Type 0 where
  already_exists not_found invalid_credentials session_not_found : Error
  room_ended room_forbidden media_required media_forbidden_for_room : Error
  playback_state_not_found invalid_upload_input forbidden_media media_not_ready : Error
  uploaded_object_not_found storage_delete invalid_manifest_key : Error
  bucket_not_configured prefix_required job_without_id queue_full : Error
  no_workspace context_done jwt_secret_required : Error
  context_done_after : Error → Error
  command_failed : ℕ → Text → Error
  command_killed : Text → Error
  external : ℕ → Error

pub data Result {ℓ} (A : Type ℓ) : Type ℓ where
  ok : A → Result A
  err : Error → Result A

-- The answer of a service or a package outside the repository.
pub data Reply (A : Type 0) : Type 0 where
  got : A → Reply A
  failed : ℕ → Reply A

pub Reply-cases : {A : Type 0} (r : Reply A) → ((a : A) × (r ≡ got a)) ⊎ ((n : ℕ) × (r ≡ failed n))
Reply-cases (got a) = inl (a, refl)
Reply-cases (failed n) = inr (n, refl)

pub Result-cases :
    {A : Type 0} (r : Result A) → ((a : A) × (r ≡ ok a)) ⊎ ((e : Error) × (r ≡ err e))
Result-cases (ok a) = inl (a, refl)
Result-cases (err e) = inr (e, refl)

-- The four tables of the database, the queue of the transcoder, and everything outside.
pub record World (X : Type 0) : Type 0 where
  pub users : List User
  pub sessions : List Session
  pub rooms : List Room
  pub media : List Media
  pub jobs : List Text
  pub outside : X

abbrev pub Exec : Type 0 → Type 0 → Type 0
Exec X A = World X → Result A × World X

module _ {X : Type 0} where
  abbrev pub pure : {A : Type 0} → A → Exec X A
  pure a w = (ok a, w)

  abbrev pub raise : {A : Type 0} → Error → Exec X A
  raise e w = (err e, w)

  abbrev pub gets : {A : Type 0} → (World X → A) → Exec X A
  gets f w = (ok (f w), w)

  abbrev pub modify : (World X → World X) → Exec X (Unit {0})
  modify f w = (ok tt, f w)

  -- An error ends the block.
  abbrev pub settle : {A B : Type 0} → Result A → (A → Exec X B) → Exec X B
  settle (ok a) f w = f a w
  settle (err e) f w = (err e, w)

  infixl 5 ◌>>=◌ ◌>>◌
  abbrev pub ◌>>=◌ : {A B : Type 0} → Exec X A → (A → Exec X B) → Exec X B
  ◌>>=◌ m f w = let (r, w') = m w in settle r f w'

  abbrev pub ◌>>◌ : {A B : Type 0} → Exec X A → Exec X B → Exec X B
  m >> k = m >>= λ _. k

  -- `if err != nil { ... }` with an answer of its own: the handler sees the result.
  abbrev pub attempt : {A : Type 0} → Exec X A → Exec X (Result A)
  attempt m w = let (r, w') = m w in (ok r, w')

  abbrev pub guard : Bool → Error → Exec X (Unit {0})
  guard b e w = (elim b [ true ↦ ok tt | false ↦ err e ], w)

  abbrev pub from_option : {A : Type 0} → Option A → Error → Exec X A
  from_option o e w = (elim o [ some a ↦ ok a | none ↦ err e ], w)

  -- A call that leaves the repository.
  abbrev pub call : {A : Type 0} → (X → Reply A × X) → Exec X A
  call f w =
      let (r, x) = f w.outside in
      (elim r [ got a ↦ ok a | failed n ↦ err (external n) ], record w { outside = x })

  -- Such a call that cannot fail, as reading the clock.
  abbrev pub observe : {A : Type 0} → (X → A × X) → Exec X A
  observe f w = let (a, x) = f w.outside in (ok a, record w { outside = x })

  settle-ok :
      {A B : Type 0} (r : Result A) (u : World X) (f : A → Exec X B) {b : B} {v : World X}
      → settle r f u ≡ (ok b, v)
      → (a : A) × (r ≡ ok a) × (f a u ≡ (ok b, v))
  settle-ok (ok a) u f h = (a, refl, h)
  settle-ok (err e) u f h = cc

  -- A block that returned has passed through each of its steps.
  pub >>=-eq-ok :
      {A B : Type 0} (m : Exec X A) (f : A → Exec X B) (w : World X) {b : B} {v : World X}
      → (m >>= f) w ≡ (ok b, v)
      → (a : A) × ((m w).0 ≡ ok a) × (f a (m w).1 ≡ (ok b, v))
  >>=-eq-ok m f w h = settle-ok (m w).0 (m w).1 f h

  -- A block that returned has passed an `if !ok { return err }`, or an `if bad { return err }`.
  pub unless-raise-ok :
      {B : Type 0} (c : Bool) (e : Error) (m : Exec X B) (w : World X) {b : B} {v : World X}
      → (if not c then raise e else m) w ≡ (ok b, v)
      → (c ≡ true) × (m w ≡ (ok b, v))
  unless-raise-ok true e m w h = (refl, h)
  unless-raise-ok false e m w h = cc

  pub if-raise-ok :
      {B : Type 0} (c : Bool) (e : Error) (m : Exec X B) (w : World X) {b : B} {v : World X}
      → (if c then raise e else m) w ≡ (ok b, v)
      → (c ≡ false) × (m w ≡ (ok b, v))
  if-raise-ok false e m w h = (refl, h)
  if-raise-ok true e m w h = cc

  pub call-ok :
      {A : Type 0} (f : X → Reply A × X) (w : World X) {a : A}
      → (call f w).0 ≡ ok a
      → (f w.outside).0 ≡ got a
  call-ok f w h = ground arith

  pub pure-ok :
      {A : Type 0} (a : A) (w : World X) {b : A} {v : World X}
      → pure a w ≡ (ok b, v)
      → (b ≡ a) × (v ≡ w)
  pure-ok a w h = (ground arith, ap (λ p. p.1) (sym h))
