-- ===== src/Alarm/Postgres/Handled.antt =====
-- Whatever message is handled and whatever the database answers, the rows stay well formed.
use thingsflow.Base.{
  ℕ, ◌≡◌, refl, Bool, true, false, Option, none, some, ltb, Bool-cases, Option-cases, inl, inr,
}
use thingsflow.Base.Text.{Text, text_eq}
use thingsflow.Alarm.Intent.{Intent, validate, clear, severity_rank}
use thingsflow.Alarm.Apply.{
  AdditionalInfo, ActiveAlarm, ApplyResult, ApplyError, Found, active, no_rows, find_failed,
  Inserted, inserted, originator_missing, insert_failed, apply_intent, handle_message, apply_clear,
  apply_update, unless, refreshed, link_new, new_link, new_alarm, create, extended_to,
}
use thingsflow.Alarm.Replies.{finished_state, answer_state}
use thingsflow.Alarm.Postgres.{
  AlarmRow, Db, latest, postgres, find_active_alarm, to_found, asked, next_answer,
  link_entity_alarm, update_alarm, extended_row, escalated_row, cleared_row,
}
use thingsflow.Alarm.Postgres.Active.{
  OneActive, update_alarm-OneActive, insert_alarm-OneActive, link_entity_alarm-alarms,
  extended_row-Tame, escalated_row-Tame, cleared_row-Tame,
}

module _ (refresh : Text → Text → Db → Bool × Db) (marshal : AdditionalInfo → Option Text)
    (kept : (tenant device : Text) (db : Db)
      → (refresh tenant device db).1.alarms ≡ db.alarms) where
  refreshed-OneActive :
      (i : Intent) (failed : ApplyError) (done : ApplyResult) (p : Bool × Db)
      → OneActive p.1.alarms
      → OneActive (refreshed (postgres refresh) marshal i failed done p).1.alarms
  unfolding refreshed postgres
  refreshed-OneActive i failed done (false, s) one = one
  refreshed-OneActive i failed done (true, s) one =
      rw
        (
          finished_state (postgres refresh) marshal done (refresh i.tenant_id i.device_id s),
          kept i.tenant_id i.device_id s,
        )
        one

  extended_to_state :
      (a : ActiveAlarm) (p : Bool × Db) → (extended_to (postgres refresh) marshal a p).1 ≡ p.1
  unfolding extended_to
  extended_to_state a (true, s) = refl
  extended_to_state a (false, s) = refl

  apply_clear-OneActive :
      (i : Intent) (now : ℕ) (found : Found) (db : Db)
      → OneActive db.alarms
      → OneActive (apply_clear (postgres refresh) marshal i now (found, db)).1.alarms
  unfolding apply_clear postgres
  apply_clear-OneActive i now find_failed db one = one
  apply_clear-OneActive i now no_rows db one = one
  apply_clear-OneActive i now (active a) db one =
      refreshed-OneActive i _ _ _
        (update_alarm-OneActive a.id (cleared_row now) db (cleared_row-Tame now) one)

  link_new-OneActive :
      (i : Intent) (now : ℕ) (id : Text) (p : Inserted × Db)
      → OneActive p.1.alarms
      → OneActive (link_new (postgres refresh) marshal i now id p).1.alarms
  unfolding link_new postgres
  link_new-OneActive i now id (insert_failed, s) one = one
  link_new-OneActive i now id (originator_missing, s) one = one
  link_new-OneActive i now id (inserted, s) one =
      refreshed-OneActive i _ _ (link_entity_alarm (new_link i now id) s)
        (rw (link_entity_alarm-alarms (new_link i now id) s) one)

  create-OneActive :
      (i : Intent) (now : ℕ) (id : Text) (info : Option Text) (db : Db)
      → latest i.device_id i.alarm_type db.alarms ≡ none
      → OneActive db.alarms
      → OneActive (create (postgres refresh) marshal i now id info db).1.alarms
  unfolding create postgres
  create-OneActive i now id none db h one = one
  create-OneActive i now id (some info) db h one =
      link_new-OneActive i now id _ (insert_alarm-OneActive (new_alarm i now id info) db h one)

  apply_update-OneActive :
      (i : Intent) (now : ℕ) (id : Text) (found : Found) (db : Db)
      → (found ≡ no_rows → latest i.device_id i.alarm_type db.alarms ≡ none)
      → OneActive db.alarms
      → OneActive (apply_update (postgres refresh) marshal i now id (found, db)).1.alarms
  unfolding apply_update postgres
  apply_update-OneActive i now id find_failed db h one = one
  apply_update-OneActive i now id no_rows db h one = create-OneActive i now id _ db (h refl) one
  apply_update-OneActive i now id (active a) db h one =
      elim (Bool-cases (ltb (severity_rank a.severity) (severity_rank i.severity))) [
        | inl e ↦ rw e (
            refreshed-OneActive i _ _ _ (
              update_alarm-OneActive a.id (escalated_row i.severity now) db
                (escalated_row-Tame i.severity now) one))
        | inr e ↦
            rw (e, extended_to_state a (update_alarm a.id (extended_row now) db))
              (update_alarm-OneActive a.id (extended_row now) db (extended_row-Tame now) one)
      ]

  to_found-no_rows : (r : Option AlarmRow) → to_found r ≡ no_rows → r ≡ none
  unfolding to_found
  to_found-no_rows none h = refl
  to_found-no_rows (some r) h = cc h

  none_found :
      (i : Intent) (db : Db)
      → (find_active_alarm i.device_id i.alarm_type db).0 ≡ no_rows
      → latest i.device_id i.alarm_type db.alarms ≡ none
  unfolding find_active_alarm
  none_found i db h = elim (Bool-cases (next_answer db.answers)) [
    | inl e ↦ to_found-no_rows _ (rw e at h)
    | inr e ↦ cc (rw e at h)
  ]

  apply_intent-OneActive :
      (i : Intent) (now : ℕ) (id : Text) (db : Db)
      → OneActive db.alarms
      → OneActive (apply_intent (postgres refresh) marshal i now id db).1.alarms
  unfolding apply_intent postgres unless
  apply_intent-OneActive i now id db one = elim (Option-cases (validate i)) [
    | inl e ↦ elim (Bool-cases (text_eq i.action clear)) [
      | inl c ↦ rw (e, c) (apply_clear-OneActive i now _ (asked db) one)
      | inr c ↦ rw (e, c) (apply_update-OneActive i now id _ (asked db) (none_found i db) one)
    ]
    | inr (x, e) ↦ rw e one
  ]

  -- While the refresh of the counts leaves the alarms alone, a message that is handled to its end
  -- with no other handler's statements between its own, at whatever time and whichever statements
  -- of it fail, does not make two alarms of one device and one type active at once.
  pub handle_message-OneActive :
      (message : Option Intent) (now : ℕ) (id : Text) (db : Db)
      → OneActive db.alarms
      → OneActive (handle_message (postgres refresh) marshal message now id db).1.alarms
  unfolding handle_message unless
  handle_message-OneActive none now id db one = one
  handle_message-OneActive (some i) now id db one = elim (Option-cases (validate i)) [
    | inl e ↦
        rw
          (
            e,
            answer_state (postgres refresh) marshal
                (apply_intent (postgres refresh) marshal i now id db),
          )
          (apply_intent-OneActive i now id db one)
    | inr (x, e) ↦ rw e one
  ]
