-- ===== src/Notifications/Delivery/Tests.antt =====
-- A webhook that takes an event and a revoked one, and the theorem at them.
use printops.Prelude.{true, none, some, [], ◌∷◌, ◌≡◌, refl, str_eq, if◌then◌else◌, codes}
use printops.Text.{lit, raw}
use printops.Notifications.Conditions.{Event, Settings, toner_low, warning}
use printops.Notifications.Delivery.{Channel, Wire, response, max_delivery_attempts}
use printops.Notifications.Delivery.Pass.{Db, deliver_pending}
use printops.Notifications.Delivery.Rows.{get}
use printops.Notifications.Delivery.Attempts.{Passed, deliver_pending-IsSettled}

abbrev chat : Channel
chat = record {
  name = "helpdesk";
  kind = "webhook";
  target = "https://chat.example.org/x";
  host = some "chat.example.org";
  enabled = true;
  last_error = none;
  last_success_at = none;
}

abbrev revoked : Channel
revoked = record chat { name = "old"; target = "https://discord.com/y"; host = some "discord.com" }

abbrev wire : Wire
wire = record {
  mail = λ target title body. none;
  post = λ target payload.
      if str_eq target "https://discord.com/y" then response 404 [] else response 200 [];
}

abbrev event : Event
event = record {
  kind = toner_low;
  dedupe_key = lit "toner" ∷ [];
  subject_type = none;
  subject_id = none;
  title = lit "Toner low" ∷ [];
  body = lit "Black" ∷ [];
  severity = warning;
  created_at = 0;
  delivered_at = none;
  attempts = 2;
  next_attempt_at = some 5;
  last_error = none;
}

abbrev settings : Settings
settings = record {
  enabled = true;
  settle_minutes = 5;
  notify_printer_attention = true;
  notify_printer_error = true;
  notify_toner_low = true;
  notify_quota_exceeded = true;
}

abbrev tables : Db
tables = record { channels = chat ∷ revoked ∷ []; events = event ∷ [] }

-- One channel has taken the event; the other rejects it for good, and so the event is given up.
partly-given_up :
    ((deliver_pending settings wire 10 tables).1 ≡ 0)
    × (get 0 (deliver_pending settings wire 10 tables).0.events
        ≡ some (record event {
          attempts = max_delivery_attempts;
          next_attempt_at = none;
          last_error = some (raw (codes "old: HTTP 404: ") ∷ []);
        }))
unfolding deliver_pending
partly-given_up = (refl, refl)

deliver_pending-IsSettled_example :
    Passed 10 wire
      (chat ∷ revoked ∷ [])
      (some event)
      (get 0 (deliver_pending settings wire 10 tables).0.events)
deliver_pending-IsSettled_example = deliver_pending-IsSettled settings wire 10 tables 0
