-- ===== src/Notifications/Delivery.antt =====
-- notifications/delivery.py: the sending of one event to one channel.
-- An error message is the list of its code points. `Wire` is what the mail relay and the webhooks
-- answer; a table is the list of its rows, and an event is known by its position.
pub mod Pass
pub mod Rows
pub mod Attempts
mod Tests
use printops.Prelude.{
  ℕ, zero, suc, ◌+◌, ◌*◌, ◌-◌, ◌^◌, ◌/◌, ◌%◌, min, String, Bool, true, false, not, ◌&&◌, ◌||◌,
  Option, none, some, List, [], ◌∷◌, ◌++◌, ltb, leb, ◌==◌, str_eq, if◌then◌else◌, filter, any,
  is_none, take, codes, ends_with,
}
use printops.Text.{Text, lit, raw}
use printops.Notifications.Conditions.{Settings, Event, Severity, warning, info}

abbrev pub max_delivery_attempts : ℕ
max_delivery_attempts = 8

abbrev pub seconds : ℕ → ℕ
seconds n = n * 1_000_000

abbrev pub backoff_base_seconds : ℕ
backoff_base_seconds = 60

abbrev pub backoff_cap_seconds : ℕ
backoff_cap_seconds = 60 * 60

abbrev pub batch_limit : ℕ
batch_limit = 20

unfoldable pub backoff_delay : ℕ → ℕ
backoff_delay attempts =
    seconds (min (backoff_base_seconds * 2 ^ (attempts - 1)) backoff_cap_seconds)

pub record Channel : Type 0 where
  pub name : String
  pub kind : String
  pub target : String
  -- `urlparse(target).hostname`
  pub host : Option String
  pub enabled : Bool
  pub last_error : Option (List ℕ)
  pub last_success_at : Option ℕ

-- a warning sign and an information sign, each with the emoji selector
abbrev pub prefix_of : Severity → List ℕ
prefix_of warning = 9888 ∷ 65039 ∷ []
prefix_of info = 8505 ∷ 65039 ∷ []

unfoldable pub render_text : Event → Text
render_text event =
    raw (prefix_of event.severity) ∷ lit " *" ∷ (event.title ++ (lit "*\n" ∷ event.body))

-- The one key of the body, and its text.
pub data Payload : Type 0 where
  content text : Text → Payload

abbrev pub is_discord : Option String → Bool
is_discord none = false
is_discord (some host) =
    str_eq host "discord.com"
    || str_eq host "discordapp.com"
    || str_eq host "ptb.discord.com"
    || str_eq host "canary.discord.com"
    || ends_with host ".discord.com"

unfoldable pub webhook_payload : Event → Option String → Payload
unfolding render_text ends_with
webhook_payload event host =
    if is_discord host then content (render_text event) else text (render_text event)

-- DeliveryError
pub record DeliveryError : Type 0 where
  pub message : List ℕ
  pub permanent : Bool

-- The response's status and text, or the message of an httpx.HTTPError.
pub data Reply : Type 0 where
  response : ℕ → List ℕ → Reply
  http_error : List ℕ → Reply

pub record Wire : Type 0 where
  -- `send_mail`, with the relay's settings: none, or the MailError
  pub mail : String → Text → Text → Option DeliveryError
  pub post : String → Payload → Reply

-- `str(n)`; a number of at most `fuel` digits
abbrev pub digits : (fuel : ℕ) → ℕ → List ℕ
digits zero n = []
digits (suc fuel) n =
    let rest = digits fuel (n / 10) in
    if ltb n 10 then (48 + n) ∷ [] else rest ++ ((48 + n % 10) ∷ [])

-- `400 <= status < 500 and status != 429`
abbrev pub is_permanent : ℕ → Bool
is_permanent status = leb 400 status && (ltb status 500 && not (status == 429))

-- A status has three digits.
unfoldable pub reply_error : Reply → Option DeliveryError
reply_error (http_error message) = some (record { message = message; permanent = false })
reply_error (response status body) =
    if leb 200 status && ltb status 300
    then none
    else some (record {
      message = codes "HTTP " ++ (digits 3 status ++ (codes ": " ++ take 200 body));
      permanent = is_permanent status;
    })

-- `none` is a success; the payload goes to the channel's own target.
unfoldable pub send_to_channel : Wire → Channel → Event → Option DeliveryError
unfolding webhook_payload reply_error
send_to_channel wire channel event =
    if str_eq channel.kind "email"
    then wire.mail channel.target event.title event.body
    else if not (str_eq channel.kind "webhook")
    then some (record {
      message = codes "Unsupported channel kind: '" ++ (codes channel.kind ++ codes "'");
      permanent = true;
    })
    else reply_error (wire.post channel.target (webhook_payload event channel.host))
