-- ===== src/Webhook.antt =====
-- internal/service/webhook.go: the participants of a room, which LiveKit's webhook reports.
pub mod Members
use api_calixio.Prelude.{Bool, true, false, ◌||◌, Option, none, some, ◌++◌, if◌then◌else◌}
use api_calixio.Text.{Text, codes, text_eq, is_empty}
use api_calixio.External.{External}
use api_calixio.Exec.{Exec, pure, call}

-- What is read of a `livekit.WebhookEvent`: `GetName` and `GetIdentity` answer the empty string for
-- a missing room or participant.
pub record WebhookEvent : Type 0 where
  pub event : Text
  pub room_name : Text
  pub identity : Text

unfoldable pub participants_key : Text → Text
participants_key room_name = codes "room:" ++ room_name ++ codes ":participants"

module _ (ext : External) where
  open ext use {X, redis_sadd, redis_srem}

  unfoldable pub track_participant : Text → Text → Bool → Exec X (Unit {0})
  track_participant room_name identity joined =
      if is_empty room_name || is_empty identity
      then pure tt
      else if joined
      then call (redis_sadd (participants_key room_name) identity)
      else call (redis_srem (participants_key room_name) identity)

  unfoldable pub handle_event : Option WebhookEvent → Exec X (Unit {0})
  handle_event none = pure tt
  handle_event (some e) =
      if text_eq e.event (codes "participant_joined")
      then track_participant e.room_name e.identity true
      else if text_eq e.event (codes "participant_left")
      then track_participant e.room_name e.identity false
      else pure tt
