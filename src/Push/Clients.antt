-- ===== src/Push/Clients.antt =====
-- push/src/apns_client.cpp and push/src/fcm_client.cpp: the start of the two clients, and the request
-- that each builds of a notification. The source logs a request where it is to be sent.
use imsystem.Prelude.{Bool, true, Option, none, some, ◌++◌, ◌≡◌, refl, if◌then◌else◌}
use imsystem.Prelude.Int.{ℤ, pos}
use imsystem.Prelude.Texts.{Text, codes}
use imsystem.Common.Effect.{Outcome, returned, thrown, then_read}
use imsystem.Gateway.TcpConnection.{Json}
use imsystem.Push.PushManager.{Notification, apns, fcm}

-- The JSON values that the clients build, around one that was parsed.
mutual
  pub data Payload (J : Type 0) : Type 0 where
    text : Text → Payload J
    number : ℤ → Payload J
    parsed : J → Payload J
    object : Fields J → Payload J

  pub data Fields (J : Type 0) : Type 0 where
    no_fields : Fields J
    field : Text → Payload J → Fields J → Fields J

pub record ApnsClient : Type 0 where
  pub apns_url : Text

pub record FcmClient : Type 0 where
  pub server_key : Text

-- The paths of the certificate and of its key are not used.
abbrev pub init_apns : Text → Text → Bool → ApnsClient
init_apns cert_path key_path is_sandbox = record {
  apns_url =
      if is_sandbox
      then codes "https://api.sandbox.push.apple.com/3/device/"
      else codes "https://api.push.apple.com/3/device/";
}

abbrev pub init_fcm : Text → FcmClient
init_fcm key = record { server_key = key }

abbrev pub fcm_url : Text
fcm_url = codes "https://fcm.googleapis.com/fcm/send"

abbrev pub or_else : Option Text → Text → Text
or_else none d = d
or_else (some t) d = t

-- `PushManager::Init` over the environment of the process.
abbrev pub init : (Text → Option Text) → ApnsClient × FcmClient
init getenv = (
  init_apns (or_else (getenv (codes "APNS_CERT_PATH")) (codes "/etc/certs/apns_cert.pem"))
      (or_else (getenv (codes "APNS_KEY_PATH")) (codes "/etc/certs/apns_key.pem")) true,
  init_fcm (or_else (getenv (codes "FCM_SERVER_KEY")) (codes "MOCK_KEY_PLEASE_CHANGE")),
)

pub record Request (J : Type 0) : Type 0 where
  pub url : Text
  pub payload : Payload J

module _ {J : Type 0} where
  abbrev pub apns_payload : Text → Text → Payload J → Payload J
  apns_payload title body custom = object (
      field (codes "aps")
        (object (
          field (codes "alert")
            (object
              (field (codes "title") (text title) (field (codes "body") (text body) no_fields)))
            (field (codes "badge") (number (pos 1))
              (field (codes "sound") (text (codes "default")) no_fields))))
        (field (codes "custom_data") custom no_fields))

  abbrev pub fcm_payload : Text → Text → Text → Payload J → Payload J
  fcm_payload device_token title body custom = object (
      field (codes "to") (text device_token) (
        field (codes "notification")
          (object (field (codes "title") (text title) (field (codes "body") (text body) no_fields)))
          (field (codes "data") (object (field (codes "custom") custom no_fields)) no_fields)))

  abbrev pub apns_request : ApnsClient → Text → Text → Text → Payload J → Request J
  apns_request client device_token title body custom = record {
    url = client.apns_url ++ device_token;
    payload = apns_payload title body custom;
  }

  abbrev pub fcm_request : FcmClient → Text → Text → Text → Payload J → Request J
  fcm_request client device_token title body custom = record {
    url = fcm_url;
    payload = fcm_payload device_token title body custom;
  }

  abbrev pub parsed_or_text : Text → Option J → Outcome (Payload J)
  parsed_or_text custom_payload none = returned (text custom_payload)
  parsed_or_text custom_payload (some v) = returned (parsed v)

module _ {J : Type 0} (json : Json J) where
  unfoldable pub custom_data : Text → Outcome (Payload J)
  custom_data custom_payload = then_read (json.parse custom_payload) (parsed_or_text custom_payload)

  abbrev pub mock_payload : Text
  mock_payload = codes "{\"msg_id\":\"mock_123\"}"

  abbrev pub request_with : ApnsClient × FcmClient → Notification → Payload J → Outcome (Request J)
  request_with (a, f) (apns token title body) custom =
      returned (apns_request a token title body custom)
  request_with (a, f) (fcm token title body) custom =
      returned (fcm_request f token title body custom)

  -- The request that leaves for a notification, with the payload that the manager passes.
  unfoldable pub request_of : ApnsClient × FcmClient → Notification → Outcome (Request J)
  request_of clients n = then_read (custom_data mock_payload) (request_with clients n)

  -- The environment is no part of a request: neither the key of FCM nor the certificate of APNs
  -- reaches one, and APNs is always the sandbox.
  request_of-init :
      (getenv other : Text → Option Text) (n : Notification)
      → request_of (init getenv) n ≡ request_of (init other) n
  unfolding request_of custom_data
  request_of-init getenv other n = keyless (custom_data mock_payload) n
    where
      keyless :
          (r : Outcome (Payload J)) (k : Notification)
          → then_read r (request_with (init getenv) k) ≡ then_read r (request_with (init other) k)
      keyless (thrown e) k = refl
      keyless (returned custom) (apns token title body) = refl
      keyless (returned custom) (fcm token title body) = refl
