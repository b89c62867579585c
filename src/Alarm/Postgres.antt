-- ===== src/Alarm/Postgres.antt =====
-- flow-core/internal/alarmmaterializer/postgres.go: the statements on the alarm rows, as functions
-- on the rows that they read and write.
pub mod Active
pub mod Rows
pub mod Handled
pub mod Outcome
use thingsflow.Base.{
  ℕ, List, [], ◌∷◌, ◌++◌, Bool, true, false, not, ◌&&◌, ◌||◌, Option, none, some, ltb, ◌==◌,
  if◌then◌else◌,
}
use thingsflow.Base.Text.{Text, text_eq}
use thingsflow.Alarm.Apply.{
  ActiveAlarm, AlarmRecord, EntityAlarmLink, Found, active, no_rows, find_failed, Inserted,
  inserted, originator_missing, insert_failed, Repository,
}

-- A row of the table `alarm`.
pub record AlarmRow : Type 0 where
  pub id : Text
  pub tenant_id : Text
  pub originator_id : Text
  pub originator_type : ℕ
  pub alarm_type : Text
  pub severity : Text
  pub start_ts : ℕ
  pub end_ts : ℕ
  pub cleared : Bool
  pub clear_ts : ℕ
  pub additional_info : Text

-- An event that is published when an alarm or its link was saved.
pub record AlarmSaved : Type 0 where
  pub tenant_id : Text
  pub device_id : Text
  pub alarm_id : Text

-- The tables, the published events, and whether the database answers the statements to come;
-- past the end of the list it does.
pub record Db : Type 0 where
  pub alarms : List AlarmRow
  pub devices : List (Text × Text)
  pub links : List EntityAlarmLink
  pub journal : List AlarmSaved
  pub answers : List Bool

abbrev pub originator_type_device : ℕ
originator_type_device = 5

unfoldable pub next_answer : List Bool → Bool
next_answer [] = true
next_answer (a ∷ rest) = a

unfoldable pub later_answers : List Bool → List Bool
later_answers [] = []
later_answers (a ∷ rest) = rest

abbrev pub asked : Db → Db
asked db = record db { answers = later_answers db.answers }

-- The condition of the query for an active alarm.
unfoldable pub is_active : Text → Text → AlarmRow → Bool
is_active device alarm_type r =
    (text_eq r.originator_id device && r.originator_type == originator_type_device)
    && (text_eq r.alarm_type alarm_type && not r.cleared)

-- The first row of `ORDER BY start_ts DESC`.
unfoldable pub later_start : AlarmRow → Option AlarmRow → AlarmRow
later_start r none = r
later_start r (some q) = if ltb r.start_ts q.start_ts then q else r

unfoldable pub latest : Text → Text → List AlarmRow → Option AlarmRow
unfolding later_start
latest device alarm_type [] = none
latest device alarm_type (r ∷ rs) =
    let rest = latest device alarm_type rs in
    if is_active device alarm_type r then some (later_start r rest) else rest

abbrev pub to_active : AlarmRow → ActiveAlarm
to_active r = record {
  id = r.id;
  device_id = r.originator_id;
  alarm_type = r.alarm_type;
  severity = r.severity;
}

unfoldable pub to_found : Option AlarmRow → Found
to_found none = no_rows
to_found (some r) = active (to_active r)

unfoldable pub find_active_alarm : Text → Text → Db → Found × Db
unfolding next_answer later_answers to_found
find_active_alarm device alarm_type db = (
  if next_answer db.answers then to_found (latest device alarm_type db.alarms) else find_failed,
  asked db,
)

-- `EXISTS (SELECT 1 FROM device WHERE id = $7 AND tenant_id = $9)`
unfoldable pub is_live : Text → Text → List (Text × Text) → Bool
is_live device tenant [] = false
is_live device tenant ((d, t) ∷ rest) =
    (text_eq d device && text_eq t tenant) || is_live device tenant rest

unfoldable pub new_row : AlarmRecord → AlarmRow
new_row a = record {
  id = a.id;
  tenant_id = a.tenant_id;
  originator_id = a.device_id;
  originator_type = originator_type_device;
  alarm_type = a.alarm_type;
  severity = a.severity;
  start_ts = a.start_ts;
  end_ts = a.end_ts;
  cleared = false;
  clear_ts = 0;
  additional_info = a.additional_info;
}

abbrev pub saved : Text → Text → Text → AlarmSaved
saved tenant device alarm = record { tenant_id = tenant; device_id = device; alarm_id = alarm }

unfoldable pub insert_alarm : AlarmRecord → Db → Inserted × Db
unfolding next_answer later_answers new_row
insert_alarm a db =
    if not (next_answer db.answers)
    then (insert_failed, asked db)
    else if is_live a.device_id a.tenant_id db.devices
    then (
      inserted,
      record (asked db) {
        alarms = new_row a ∷ db.alarms;
        journal = db.journal ++ saved a.tenant_id a.device_id a.id ∷ [];
      },
    )
    else (originator_missing, asked db)

unfoldable pub is_linked : EntityAlarmLink → List EntityAlarmLink → Bool
is_linked l [] = false
is_linked l (k ∷ ks) =
    (text_eq k.device_id l.device_id && text_eq k.alarm_id l.alarm_id) || is_linked l ks

unfoldable pub link_entity_alarm : EntityAlarmLink → Db → Bool × Db
unfolding next_answer later_answers is_linked
link_entity_alarm l db =
    if next_answer db.answers
    then (
      true,
      record (asked db) {
        links = if is_linked l db.links then db.links else l ∷ db.links;
        journal = db.journal ++ saved l.tenant_id l.device_id l.alarm_id ∷ [];
      },
    )
    else (false, asked db)

-- `UPDATE alarm SET … WHERE id = …`
unfoldable pub update_rows : Text → (AlarmRow → AlarmRow) → List AlarmRow → List AlarmRow
update_rows id f [] = []
update_rows id f (r ∷ rs) = (if text_eq r.id id then f r else r) ∷ update_rows id f rs

unfoldable pub update_alarm : Text → (AlarmRow → AlarmRow) → Db → Bool × Db
unfolding next_answer later_answers
update_alarm id f db =
    if next_answer db.answers
    then (true, record (asked db) { alarms = update_rows id f db.alarms })
    else (false, asked db)

abbrev pub extended_row : ℕ → AlarmRow → AlarmRow
extended_row end r = record r { end_ts = end }

abbrev pub escalated_row : Text → ℕ → AlarmRow → AlarmRow
escalated_row severity end r = record r { end_ts = end; severity = severity }

-- `end_ts = GREATEST(COALESCE(end_ts, 0), $1)`
abbrev pub cleared_row : ℕ → AlarmRow → AlarmRow
cleared_row at r = record r {
  cleared = true;
  clear_ts = at;
  end_ts = if ltb r.end_ts at then at else r.end_ts;
}

-- `PostgresRepository`. What the refresh of the ancestors' counts does to the tables is a
-- parameter: it walks the relations and writes attributes.
unfoldable pub postgres : (Text → Text → Db → Bool × Db) → Repository Db
unfolding find_active_alarm insert_alarm link_entity_alarm update_alarm
postgres refresh = record {
  find = find_active_alarm;
  insert = insert_alarm;
  link = link_entity_alarm;
  extend = λ id end. update_alarm id (extended_row end);
  escalate = λ id severity end. update_alarm id (escalated_row severity end);
  clear_alarm = λ id at. update_alarm id (cleared_row at);
  refresh = refresh;
}
