-- ===== src/System/Ownership/Strangers.antt =====
-- The rows of an owner through any number of requests of other people.
use mathlib.Core.List.{Memᴰ}
use api_calixio.Prelude.{
  ℕ, ◌⊎◌, Bool, true, false, not, List, [], ◌∷◌, ◌≡◌, ◌≢◌, refl, ap, ◌∙◌, sym, arith, filter,
  Bool-cases, inl, inr,
}
use api_calixio.Text.{Text, text_eq}
use api_calixio.Text.Laws.{text_eq→eq}
use api_calixio.Integer.{ℤ}
use api_calixio.Records.{Room, Media}
use api_calixio.External.{External}
use api_calixio.Machine.{Machine}
use api_calixio.Exec.{World, ok}
use api_calixio.Access.{passed, authorize}
use api_calixio.Cleanup.{run_once}
use api_calixio.Transcoder.Commands.{TranscoderService}
use api_calixio.Http.Codec.{Request, Site}
use api_calixio.Http.Router.{Route, Match, found, unknown, routes, handle, serve}
use api_calixio.Http.Router.Guards.{is_public, guarded_iff_private, authorize-cases, serve-refused}
use api_calixio.System.Changes.{Tables, tables}
use api_calixio.System.Constraints.{IsConsistent}
use api_calixio.System.Reachable.{Step, Reachable}
use api_calixio.System.Invariants.{Reachable-IsConsistent}
use api_calixio.System.Uploads.{run_once-IsKept}
use api_calixio.System.Ownership.{owns_room, owns_media, others}
use api_calixio.System.Ownership.Open.{handle_public-Spares}
use api_calixio.System.Ownership.Handlers.{serve_spares_others}

-- The rooms and the media items of an owner.
abbrev pub rows_of : {X : Type 0} → Text → World X → List Room × List Media
rows_of o w = (filter (owns_room o) w.rooms, filter (owns_media o) w.media)

module _ {A : Type 0} where
  filter-filter :
      (p q : A → Bool) (xs : List A)
      → ((x : A) → p x ≡ true → q x ≡ true)
      → filter p (filter q xs) ≡ filter p xs
  filter-filter p q [] h = refl
  filter-filter p q (x ∷ xs) h = let rest = filter-filter p q xs h in let here = h x in ground arith

not_both : (t o u : Text) → text_eq o u ≡ false → text_eq t o ≡ true → not (text_eq t u) ≡ true
not_both t o u other mine =
    let same : text_eq t u ≡ text_eq o u = ap (λ x. text_eq x u) (text_eq→eq t o mine) in
    ground arith

-- The rows of an owner are among those of everybody but another caller.
others-rows_of :
    {X : Type 0}
    → (o u : Text) (v w : World X) → text_eq o u ≡ false
    → others u w ≡ others u v
    → rows_of o w ≡ rows_of o v
others-rows_of o u v w other same =
    let rooms : (x : World _) → filter (owns_room o) (others u x).0 ≡ filter (owns_room o) x.rooms =
      λ x. filter-filter (owns_room o) _ x.rooms (λ r. not_both r.owner_user_id o u other) in
    let items : (x : World _)
        → filter (owns_media o) (others u x).1 ≡ filter (owns_media o) x.media =
      λ x. filter-filter (owns_media o) _ x.media (λ m. not_both m.owner_user_id o u other) in
    let a = sym (rooms w) ∙ ap (λ p. filter (owns_room o) p.0) same ∙ rooms v in
    let b = sym (items w) ∙ ap (λ p. filter (owns_media o) p.1) same ∙ items v in ground arith

match_cases :
    (x : Match)
    → ((status : ℕ) × (x ≡ unknown status))
      ⊎ ((route : Route) × (param : Text → Text) × (x ≡ found route param))
match_cases (unknown status) = inl (status, refl)
match_cases (found route param) = inr (route, param, refl)

somebody_else : (o : Text) → (u : Text) × (text_eq o u ≡ false)
unfolding text_eq
somebody_else [] = (0 ∷ [], refl)
somebody_else (c ∷ cs) = ([], refl)

module _ (ext : External) (m : Machine ext.X) (site : Site ext) (transcoder : TranscoderService)
    (find_route : List Route → Text → Text → Match) where
  open ext use {X}

  -- A request that is not signed in as the owner, a run of the cleanup, or a change of the outside.
  pub data StrangerStep (o : Text) : World X → World X → Type 0 where
    request :
        (r : Request) (w : World X)
        → (authorize ext site.auth true r.authorization w).0 ≢ ok (passed o)
        → StrangerStep o w (serve ext site find_route r w).1
    clean :
        (order : List (Text × Text) → List (Text × Text)) (batch : ℤ) (w : World X)
        → StrangerStep o w (run_once ext site.upload.storage order batch w).1
    elsewhere : (x : X) (w : World X) → StrangerStep o w (record w { outside = x })

  -- Any number of these steps.
  pub data Strangers (o : Text) (start : World X) : World X → Type 0 where
    here : Strangers o start start
    step : {v w : World X} → Strangers o start v → StrangerStep o v w → Strangers o start w

  stranger-Step :
      {o : Text} {v w : World X} → StrangerStep o v w → Step ext m site transcoder find_route v w
  stranger-Step (request r w h) = Step.request r w
  stranger-Step (clean order batch w) = Step.clean order batch w
  stranger-Step (elsewhere x w) = Step.elsewhere x w

  Strangers-Reachable :
      {o : Text} {v w : World X} → Strangers o v w → Reachable ext m site transcoder find_route v w
  Strangers-Reachable here = Reachable.here
  Strangers-Reachable (step r s) = Reachable.step (Strangers-Reachable r) (stranger-Step s)

  kept-rows_of : (o : Text) (v w : World X) → tables w ≡ tables v → rows_of o w ≡ rows_of o v
  kept-rows_of o v w e =
      ap (λ (t : Tables). (filter (owns_room o) t.rooms, filter (owns_media o) t.media)) e

  -- chi finds routes of the table that it was given, and no others.
  abbrev pub FindsListed : Type 0
  FindsListed =
      (method path : Text) (route : Route) (param : Text → Text)
      → find_route routes method path ≡ found route param
      → Memᴰ route routes

  serve-rows_of :
      (o : Text) (r : Request) (w : World X)
      → FindsListed
      → (authorize ext site.auth true r.authorization w).0 ≢ ok (passed o)
      → IsConsistent (tables w)
      → rows_of o (serve ext site find_route r w).1 ≡ rows_of o w
  unfolding serve
  serve-rows_of o r w listed stranger c =
      let v = (serve ext site find_route r w).1 in
      elim (match_cases (find_route routes r.method r.path)) [
        | inl (status, f) ↦ rw (f, serve) refl
        | inr (route, param, f) ↦
            let member = listed r.method r.path route param f in
            let same = guarded_iff_private route member in
            elim (Bool-cases (is_public route.endpoint)) [
              | inl public ↦
                  let open_route : route.guarded ≡ false = ground arith in
                  let (u, other) = somebody_else o in
                  rw (f, open_route, serve)
                    (others-rows_of o u w (handle ext site route.endpoint [] param r w).1 other
                      (handle_public-Spares ext u site route.endpoint [] param r public w))
              | inr private ↦ elim (authorize-cases ext site.auth r.authorization w) [
                | inr (status, code, a, known) ↦
                    let (answer, apart) =
                      serve-refused ext site find_route r w route param status code f member private
                        a in
                    kept-rows_of o w v (ap tables apart)
                | inl (user, a) ↦ elim (Bool-cases (text_eq o user)) [
                  | inl own ↦
                      absurd (stranger (a ∙ ap (λ x. ok (passed x)) (sym (text_eq→eq o user own))))
                  | inr other ↦
                      others-rows_of o user w v other
                        (serve_spares_others ext site find_route r w route param user f member a c)
                ]
              ]
            ]
      ]

  step-rows_of :
      {o : Text} {v w : World X}
      → FindsListed
      → StrangerStep o v w
      → IsConsistent (tables v)
      → rows_of o w ≡ rows_of o v
  step-rows_of {o} listed (request r w h) c = serve-rows_of o r w listed h c
  step-rows_of {o} listed (clean order batch w) c =
      kept-rows_of o w (run_once ext site.upload.storage order batch w).1
        (run_once-IsKept ext site.upload.storage order batch w)
  step-rows_of listed (elsewhere x w) c = refl

  -- In every world that is reached, from one where the constraints of the migrations hold, by requests
  -- that are not signed in as an owner, runs of the cleanup and changes of the outside, the rooms and
  -- the media items of this owner are as they were, if the router finds no route but those of the
  -- table.
  pub Strangers-rows_of :
      {o : Text} {v w : World X}
      → FindsListed
      → Strangers o v w
      → IsConsistent (tables v)
      → rows_of o w ≡ rows_of o v
  Strangers-rows_of listed here c = refl
  Strangers-rows_of listed (step r s) c =
      step-rows_of listed s
        (Reachable-IsConsistent ext m site transcoder find_route (Strangers-Reachable r) c)
      ∙ Strangers-rows_of listed r c
