-- ===== src/Alarm/Postgres/Active.antt =====
-- At most one alarm of a device and a type is active.
use thingsflow.Base.{
  ℕ, suc, ◌≤◌, ◌≡◌, refl, subst, List, [], ◌∷◌, true, none, arith, if◌then◌else◌, Bool-cases, inl,
  inr,
}
use thingsflow.Base.Text.{Text, text_eq_iff}
use thingsflow.Alarm.Apply.{AlarmRecord, EntityAlarmLink}
use thingsflow.Alarm.Postgres.{
  AlarmRow, is_active, latest, update_rows, update_alarm, insert_alarm, link_entity_alarm,
  next_answer, is_live, Db, new_row, extended_row, escalated_row, cleared_row,
}

-- How many alarms of the device and the type are active.
unfoldable pub count_active : Text → Text → List AlarmRow → ℕ
count_active device alarm_type [] = 0
count_active device alarm_type (r ∷ rs) =
    let rest = count_active device alarm_type rs in
    if is_active device alarm_type r then suc rest else rest

abbrev pub OneActive : List AlarmRow → Type 0
OneActive rows = (device alarm_type : Text) → count_active device alarm_type rows ≤ 1

pub latest-none :
    (device alarm_type : Text) (rows : List AlarmRow)
    → latest device alarm_type rows ≡ none
    → count_active device alarm_type rows ≡ 0
unfolding latest count_active
latest-none device alarm_type [] h = refl
latest-none device alarm_type (r ∷ rs) h = ground (arith, latest-none device alarm_type rs)

-- An update that activates nothing.
abbrev pub Tame : (AlarmRow → AlarmRow) → Type 0
Tame f =
    (device alarm_type : Text) (r : AlarmRow)
    → is_active device alarm_type (f r) ≡ true
    → is_active device alarm_type r ≡ true

pub count_active-update_rows :
    (id : Text) (f : AlarmRow → AlarmRow) (device alarm_type : Text) (rows : List AlarmRow)
    → Tame f
    → count_active device alarm_type (update_rows id f rows) ≤ count_active device alarm_type rows
unfolding count_active update_rows
count_active-update_rows id f device alarm_type [] tame = omega arith
count_active-update_rows id f device alarm_type (r ∷ rs) tame =
    ground
      (arith, count_active-update_rows id f device alarm_type rs tame, tame device alarm_type r)

pub extended_row-Tame : (end : ℕ) → Tame (extended_row end)
unfolding is_active
extended_row-Tame end device alarm_type r h = h

pub escalated_row-Tame : (severity : Text) (end : ℕ) → Tame (escalated_row severity end)
unfolding is_active
escalated_row-Tame severity end device alarm_type r h = h

pub cleared_row-Tame : (at : ℕ) → Tame (cleared_row at)
unfolding is_active
cleared_row-Tame at device alarm_type r h = ground arith

new_row_active :
    (a : AlarmRecord) (device alarm_type : Text)
    → is_active device alarm_type (new_row a) ≡ true
    → (a.device_id ≡ device) × (a.alarm_type ≡ alarm_type)
unfolding is_active new_row
new_row_active a device alarm_type h = (
  ground (arith, text_eq_iff a.device_id device),
  ground (arith, text_eq_iff a.alarm_type alarm_type),
)

count_active-none :
    (a : AlarmRecord) (device alarm_type : Text) (rows : List AlarmRow)
    → a.device_id ≡ device
    → a.alarm_type ≡ alarm_type
    → latest a.device_id a.alarm_type rows ≡ none
    → count_active device alarm_type rows ≡ 0
count_active-none a device alarm_type rows p q h =
    subst (λ d. count_active d alarm_type rows ≡ 0) p
      (subst (λ t. count_active a.device_id t rows ≡ 0) q
        (latest-none a.device_id a.alarm_type rows h))

-- An alarm is inserted where none of its device and type is active.
pub insert-OneActive :
    (a : AlarmRecord) (rows : List AlarmRow)
    → latest a.device_id a.alarm_type rows ≡ none
    → OneActive rows
    → OneActive (new_row a ∷ rows)
unfolding count_active
insert-OneActive a rows h one device alarm_type =
    elim (Bool-cases (is_active device alarm_type (new_row a))) [
      | inl e ↦
          let (p, q) = new_row_active a device alarm_type e in
          let z : count_active device alarm_type rows ≡ 0 =
            count_active-none a device alarm_type rows p q h in
          rw e (omega (arith, z))
      | inr e ↦ rw e (one device alarm_type)
    ]

update_rows-OneActive :
    (id : Text) (f : AlarmRow → AlarmRow) (rows : List AlarmRow)
    → Tame f
    → OneActive rows
    → OneActive (update_rows id f rows)
update_rows-OneActive id f rows tame one device alarm_type =
    omega (arith, count_active-update_rows id f device alarm_type rows tame, one device alarm_type)

pub update_alarm-OneActive :
    (id : Text) (f : AlarmRow → AlarmRow) (db : Db)
    → Tame f
    → OneActive db.alarms
    → OneActive (update_alarm id f db).1.alarms
unfolding update_alarm
update_alarm-OneActive id f db tame one = elim (Bool-cases (next_answer db.answers)) [
  | inl e ↦ rw e (update_rows-OneActive id f db.alarms tame one)
  | inr e ↦ rw e one
]

pub insert_alarm-OneActive :
    (a : AlarmRecord) (db : Db)
    → latest a.device_id a.alarm_type db.alarms ≡ none
    → OneActive db.alarms
    → OneActive (insert_alarm a db).1.alarms
unfolding insert_alarm
insert_alarm-OneActive a db h one = elim (Bool-cases (next_answer db.answers)) [
  | inl e ↦ elim (Bool-cases (is_live a.device_id a.tenant_id db.devices)) [
    | inl l ↦ rw (e, l) (insert-OneActive a db.alarms h one)
    | inr l ↦ rw (e, l) one
  ]
  | inr e ↦ rw e one
]

pub link_entity_alarm-alarms :
    (l : EntityAlarmLink) (db : Db) → (link_entity_alarm l db).1.alarms ≡ db.alarms
unfolding link_entity_alarm
link_entity_alarm-alarms l db = elim (Bool-cases (next_answer db.answers)) [
  | inl e ↦ rw e refl
  | inr e ↦ rw e refl
]
