-- ===== src/LiveKit.antt =====
-- internal/livekit/client.go: what the client asks of LiveKit's SDK. With the SDK it fills the calls
-- of LiveKit that the services make through `External`.
use api_calixio.Prelude.{ℕ, Bool, true, Option, none, some, if◌then◌else◌}
use api_calixio.Text.{Text, is_empty}
use api_calixio.Integer.{ℤ}
use api_calixio.External.{External}
use api_calixio.Exec.{Reply}
use api_calixio.Webhook.{WebhookEvent}
use api_calixio.Http.Codec.{Request}

-- The field `secret` is that of the key provider, which checks the webhooks.
pub record Client : Type 0 where
  pub host : Text
  pub api_key : Text
  pub api_secret : Text
  pub secret : Text
  pub room_auto_timeout : ℤ
  pub token_ttl : ℤ

pub record CreateRoomRequest : Type 0 where
  pub name : Text
  pub empty_timeout : ℕ
  pub max_participants : ℕ

pub record VideoGrant : Type 0 where
  pub room : Text
  pub room_join : Bool
  pub can_publish : Bool
  pub can_subscribe : Bool

-- What is set of an access token: a name only if there is one.
pub record AccessToken : Type 0 where
  pub identity : Text
  pub name : Option Text
  pub grant : VideoGrant
  pub valid_for : ℤ

-- LiveKit's SDK: the room service at a host with a key and a secret, the signing of tokens and the
-- reading of webhooks with a key and a secret; and `uint32(d.Seconds())`.
pub record Sdk (X : Type 0) : Type 0 where
  pub create_room : Text → Text → Text → CreateRoomRequest → X → Reply (Unit {0}) × X
  pub delete_room : Text → Text → Text → Text → X → Reply (Unit {0}) × X
  pub to_jwt : Text → Text → AccessToken → X → Reply Text × X
  pub receive_webhook_event : Text → Text → Request → Reply (Option WebhookEvent)
  pub whole_seconds : ℤ → ℕ

-- `NewClient`
unfoldable pub new_client : Text → Text → Text → Text → ℤ → ℤ → Client
new_client host api_key api_secret webhook_secret room_auto_timeout token_ttl = record {
  host = host;
  api_key = api_key;
  api_secret = api_secret;
  secret = if is_empty webhook_secret then api_secret else webhook_secret;
  room_auto_timeout = room_auto_timeout;
  token_ttl = token_ttl;
}

module _ {X : Type 0} (sdk : Sdk X) (c : Client) where
  open sdk use {create_room, delete_room, to_jwt, receive_webhook_event, whole_seconds}

  -- `CreateRoom`
  unfoldable pub client_create_room : Text → X → Reply (Unit {0}) × X
  client_create_room name = create_room c.host c.api_key c.api_secret (record {
    name = name;
    empty_timeout = whole_seconds c.room_auto_timeout;
    max_participants = 16;
  })

  -- `DeleteRoom`
  unfoldable pub client_delete_room : Text → X → Reply (Unit {0}) × X
  client_delete_room name = delete_room c.host c.api_key c.api_secret name

  -- `GenerateToken`
  unfoldable pub generate_token : Text → Text → Text → X → Reply Text × X
  generate_token identity room_name participant_name = to_jwt c.api_key c.api_secret (record {
    identity = identity;
    name = if is_empty participant_name then none else some participant_name;
    grant = record { room = room_name; room_join = true; can_publish = true; can_subscribe = true };
    valid_for = c.token_ttl;
  })

  -- `ReceiveWebhook`
  unfoldable pub receive_webhook : Request → Reply (Option WebhookEvent)
  receive_webhook r = receive_webhook_event c.api_key c.secret r

-- The outside of a program whose services hold this client.
unfoldable pub with_live_kit : (ext : External) → Sdk ext.X → Client → External
unfolding client_create_room client_delete_room generate_token
with_live_kit ext sdk c = record ext {
  lk_create_room = client_create_room sdk c;
  lk_delete_room = client_delete_room sdk c;
  lk_token = generate_token sdk c;
}
