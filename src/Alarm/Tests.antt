-- ===== src/Alarm/Tests.antt =====
-- Runs of the alarm materializer, and the conditions of its theorems on them.
use thingsflow.Base.{◌≡◌, ◌≢◌, ◌↔◌, refl, [], ◌∷◌, Bool, true, false, Option, some, arith}
use thingsflow.Base.Text.{Text, codes, text_eq, text_eq_iff}
use thingsflow.Base.Int.{pos}
use thingsflow.Alarm.Intent.{Intent, create_or_update, clear, validate, severity_rank}
use thingsflow.Alarm.Apply.{
  AdditionalInfo, Found, handle_message, apply_intent, apply_update, ack, nak, term,
}
use thingsflow.Alarm.Postgres.{Db, postgres, latest, is_active, is_live}
use thingsflow.Alarm.Replies.{Refused, handle_message-Refused}
use thingsflow.Alarm.Postgres.Active.{OneActive, count_active}
use thingsflow.Alarm.Postgres.Handled.{handle_message-OneActive}
use thingsflow.Alarm.Postgres.Outcome.{Raised, update_acked}

abbrev no_refresh : Text → Text → Db → Bool × Db
no_refresh tenant device db = (true, db)

abbrev encoded : AdditionalInfo → Option Text
encoded info = some info.source

abbrev raise : Text → Intent
raise severity = record {
  action = create_or_update;
  tenant_id = codes "t1";
  device_id = codes "d1";
  alarm_type = codes "hot";
  severity = severity;
  ts = pos 5;
  details = [];
}

abbrev lower : Intent
lower = record (raise []) { action = clear }

abbrev fresh : Db
fresh = record {
  alarms = [];
  devices = (codes "d1", codes "t1") ∷ [];
  links = [];
  journal = [];
  answers = [];
}

-- The store after a minor alarm.
abbrev raised : Db
raised =
    (handle_message (postgres no_refresh) encoded (some (raise (codes "MINOR"))) 10 (codes "a1")
      fresh).1

raised_rows : count_active (codes "d1") (codes "hot") raised.alarms ≡ 1
unfolding count_active is_active handle_message validate text_eq apply_intent postgres latest
    is_live
raised_rows = refl

-- What two handlers of the same intent read when both look before either writes.
abbrev read_by_both : Found × Db
read_by_both = (postgres no_refresh).find (codes "d1") (codes "hot") fresh

-- The store after the first of them has written.
abbrev written_by_one : Db
written_by_one =
    (apply_update (postgres no_refresh) encoded (raise (codes "MINOR")) 10 (codes "a1")
      read_by_both).1

-- Each inserts a row, and both rows are active.
two_handlers :
    count_active
      (codes "d1")
      (codes "hot")
      (apply_update
        (postgres no_refresh)
        encoded
        (raise (codes "MINOR"))
        11
        (codes "a2")
        (read_by_both.0, written_by_one)).1.alarms
    ≡ 2
unfolding count_active is_active apply_update text_eq postgres latest is_live
two_handlers = refl

-- The link of a new alarm may fail after its row was written; the message comes again and extends it.
unlinked :
    (handle_message
      (postgres no_refresh)
      encoded
      (some (raise (codes "MINOR")))
      10
      (codes "a1")
      (record fresh { answers = true ∷ true ∷ false ∷ [] })).0
    ≡ nak
unfolding handle_message validate text_eq apply_intent postgres latest is_live
unlinked = refl

fresh_OneActive : OneActive fresh.alarms
unfolding count_active
fresh_OneActive device alarm_type = omega arith

raised_OneActive : OneActive raised.alarms
raised_OneActive =
    handle_message-OneActive no_refresh encoded (λ t d db. refl) (some (raise (codes "MINOR"))) 10
      (codes "a1") fresh fresh_OneActive

handle_message-OneActive_example :
    OneActive
      (handle_message
        (postgres no_refresh)
        encoded
        (some (raise (codes "MAJOR")))
        20
        (codes "a2")
        raised).1.alarms
handle_message-OneActive_example =
    handle_message-OneActive no_refresh encoded (λ t d db. refl) (some (raise (codes "MAJOR"))) 20
      (codes "a2") raised raised_OneActive

handle_message-Refused_example :
    ((handle_message (postgres no_refresh) encoded (some (raise [])) 20 (codes "a2") raised).0
        ≡ term
      ↔ Refused (some (raise [])))
    × (Refused (some (raise []))
        → (handle_message (postgres no_refresh) encoded (some (raise [])) 20 (codes "a2") raised).1
          ≡ raised)
handle_message-Refused_example =
    handle_message-Refused (postgres no_refresh) encoded (some (raise [])) 20 (codes "a2") raised

lower_acked :
    (handle_message (postgres no_refresh) encoded (some lower) 30 (codes "a3") raised).0 ≡ ack
unfolding handle_message validate text_eq apply_intent postgres latest is_live is_active
lower_acked = refl

not_clear : create_or_update ≢ clear
unfolding text_eq
not_clear = λ e. cc ((text_eq_iff create_or_update clear).1 e)

major_acked :
    (handle_message
      (postgres no_refresh)
      encoded
      (some (raise (codes "MAJOR")))
      20
      (codes "a2")
      raised).0
    ≡ ack
unfolding handle_message validate text_eq apply_intent postgres latest is_live is_active
    severity_rank
major_acked = refl

raised_live : is_live (codes "d1") (codes "t1") raised.devices ≡ true
unfolding handle_message validate text_eq apply_intent postgres latest is_live
raised_live = refl

update_acked_example :
    Raised
      (raise (codes "MAJOR"))
      (handle_message
        (postgres no_refresh)
        encoded
        (some (raise (codes "MAJOR")))
        20
        (codes "a2")
        raised).1.alarms
update_acked_example =
    update_acked no_refresh encoded (λ t d db. refl) (raise (codes "MAJOR")) 20 (codes "a2") raised
      not_clear raised_live major_acked
