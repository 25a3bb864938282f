-- ===== src/Webhook/Members.antt =====
-- What the tracking does to the set of a room.
use api_calixio.Prelude.{
  Bool, true, false, ◌||◌, some, ◌≡◌, ap, sym, ◌∙◌, arith, Bool-cases, inl, inr,
}
use api_calixio.Text.{Text, codes, text_eq, is_empty}
use api_calixio.External.{External}
use api_calixio.Exec.{World, ok, got, call, call-ok}
use api_calixio.Webhook.{WebhookEvent, participants_key, track_participant, handle_event}

abbrev pub is_joined : WebhookEvent → Bool
is_joined e = text_eq e.event (codes "participant_joined")

abbrev pub is_left : WebhookEvent → Bool
is_left e = text_eq e.event (codes "participant_left")

module _ (ext : External) where
  open ext use {X, redis_sadd, redis_srem}

  track-ok :
      (member : Text → Text → X → Bool)
      → ((k v : Text) (x : X)
          → (redis_sadd k v x).0 ≡ got tt
          → member k v (redis_sadd k v x).1 ≡ true)
      → ((k v : Text) (x : X)
          → (redis_srem k v x).0 ≡ got tt
          → member k v (redis_srem k v x).1 ≡ false)
      → (room identity : Text) (joined : Bool) (w v : World X) (a : Unit {0})
      → is_empty room || is_empty identity ≡ false
      → track_participant ext room identity joined w ≡ (ok a, v)
      → member (participants_key room) identity v.outside ≡ joined
  unfolding track_participant
  track-ok member added removed room identity true w v a named h =
      let run : call (redis_sadd (participants_key room) identity) w ≡ (ok a, v) = rw named at h in
      ap (λ p. member (participants_key room) identity p.1.outside) (sym run)
      ∙ added (participants_key room) identity w.outside
          (call-ok (redis_sadd (participants_key room) identity) w (ap (λ p. p.0) run))
  track-ok member added removed room identity false w v a named h =
      let run : call (redis_srem (participants_key room) identity) w ≡ (ok a, v) = rw named at h in
      ap (λ p. member (participants_key room) identity p.1.outside) (sym run)
      ∙ removed (participants_key room) identity w.outside
          (call-ok (redis_srem (participants_key room) identity) w (ap (λ p. p.0) run))

  -- A joined or left event that names its room and its participant, and that was handled without
  -- an error, leaves the participant in the set of the room exactly if it was a joined event: if a
  -- `SAdd` of Redis that succeeds makes the value a member, and an `SRem` makes it none.
  pub handle_event-member :
      (member : Text → Text → X → Bool)
      → ((k v : Text) (x : X)
          → (redis_sadd k v x).0 ≡ got tt
          → member k v (redis_sadd k v x).1 ≡ true)
      → ((k v : Text) (x : X)
          → (redis_srem k v x).0 ≡ got tt
          → member k v (redis_srem k v x).1 ≡ false)
      → (e : WebhookEvent) (w v : World X) (a : Unit {0})
      → is_empty e.room_name || is_empty e.identity ≡ false
      → is_joined e || is_left e ≡ true
      → handle_event ext (some e) w ≡ (ok a, v)
      → member (participants_key e.room_name) e.identity v.outside ≡ is_joined e
  unfolding handle_event
  handle_event-member member added removed e w v a named kind h = elim (Bool-cases (is_joined e)) [
    | inl j ↦
        track-ok member added removed e.room_name e.identity true w v a named (rw j at h) ∙ sym j
    | inr j ↦
        let l : is_left e ≡ true = ground arith in
        track-ok member added removed e.room_name e.identity false w v a named (rw (j, l) at h)
        ∙ sym j
  ]
