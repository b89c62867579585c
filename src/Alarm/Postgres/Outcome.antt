-- ===== src/Alarm/Postgres/Outcome.antt =====
-- What an acknowledged intent has done to the rows.
use thingsflow.Base.{
  ℕ, ◌≤◌, ◌≡◌, ◌≢◌, refl, ◌∙◌, List, ◌∷◌, Bool, true, false, Option, none, some, arith, ltb,
  Bool-cases, Option-cases, inl, inr, Any,
}
use thingsflow.Base.Text.{Text, text_eq, text_eq_refl, text_eq_iff, text_eq_ne}
use thingsflow.Base.Result.{Result}
use thingsflow.Alarm.Intent.{Intent, validate, clear, severity_rank}
use thingsflow.Alarm.Apply.{
  AdditionalInfo, AlarmRecord, ActiveAlarm, ApplyResult, ApplyError, find_failed, Inserted,
  inserted, originator_missing, insert_failed, apply_intent, handle_message, answer, apply_clear,
  apply_update, unless, refreshed, link_new, new_link, new_alarm, create, extended_to,
  additional_info, ack,
}
use thingsflow.Alarm.Replies.{finished_state, answer_state}
use thingsflow.Alarm.Postgres.{
  AlarmRow, Db, is_active, to_active, latest, postgres, find_active_alarm, to_found, asked,
  next_answer, insert_alarm, link_entity_alarm, update_rows, update_alarm, new_row, is_live,
  extended_row, escalated_row, cleared_row,
}
use thingsflow.Alarm.Postgres.Active.{
  OneActive, count_active, latest-none, link_entity_alarm-alarms,
}
use thingsflow.Alarm.Postgres.Rows.{count_active-cleared, latest-In, Any-update_rows, latest-active}

-- The device and the type have an active alarm at least as severe as the intent.
abbrev pub Raised : Intent → List AlarmRow → Type 0
Raised i rows =
    Any
      (λ r.
        (is_active i.device_id i.alarm_type r ≡ true)
        × (severity_rank i.severity ≤ severity_rank r.severity))
      rows

module _ (refresh : Text → Text → Db → Bool × Db) (marshal : AdditionalInfo → Option Text)
    (kept : (tenant device : Text) (db : Db)
      → (refresh tenant device db).1.alarms ≡ db.alarms) where
  abbrev IsAcked : Result ApplyError ApplyResult × Db → Type 0
  IsAcked p = (answer (postgres refresh) marshal p).0 ≡ ack

  refreshed_acked :
      (i : Intent) (failed : ApplyError) (done : ApplyResult) (p : Bool × Db)
      → IsAcked (refreshed (postgres refresh) marshal i failed done p)
      → (p.0 ≡ true)
        × ((refreshed (postgres refresh) marshal i failed done p).1.alarms ≡ p.1.alarms)
  unfolding refreshed answer postgres
  refreshed_acked i failed done (false, s) h = cc h
  refreshed_acked i failed done (true, s) h = (
    refl,
    rw (finished_state (postgres refresh) marshal done (refresh i.tenant_id i.device_id s))
        (kept i.tenant_id i.device_id s),
  )

  update_alarm_done :
      (id : Text) (f : AlarmRow → AlarmRow) (db : Db)
      → (update_alarm id f db).0 ≡ true
      → (update_alarm id f db).1.alarms ≡ update_rows id f db.alarms
  unfolding update_alarm
  update_alarm_done id f db h = elim (Bool-cases (next_answer db.answers)) [
    | inl e ↦ rw e refl
    | inr e ↦ cc (rw e at h)
  ]

  -- An update of the row that was found, then the refresh.
  updated_acked :
      (i : Intent) (failed : ApplyError) (done : ApplyResult) (id : Text) (f : AlarmRow → AlarmRow)
      (db : Db)
      → IsAcked (refreshed (postgres refresh) marshal i failed done (update_alarm id f db))
      → (refreshed (postgres refresh) marshal i failed done (update_alarm id f db)).1.alarms
        ≡ update_rows id f db.alarms
  updated_acked i failed done id f db h =
      let (d, e) = refreshed_acked i failed done (update_alarm id f db) h in
      e ∙ update_alarm_done id f db d

  apply_clear_acked :
      (i : Intent) (now : ℕ) (o : Option AlarmRow) (db : Db)
      → latest i.device_id i.alarm_type db.alarms ≡ o
      → OneActive db.alarms
      → IsAcked (apply_clear (postgres refresh) marshal i now (to_found o, db))
      → count_active i.device_id i.alarm_type
          (apply_clear (postgres refresh) marshal i now (to_found o, db)).1.alarms
        ≡ 0
  unfolding apply_clear to_found postgres
  apply_clear_acked i now none db l one h = latest-none i.device_id i.alarm_type db.alarms l
  apply_clear_acked i now (some r) db l one h =
      rw (updated_acked i _ _ r.id (cleared_row now) db h) (
        omega (
          arith,
          count_active-cleared now i.device_id i.alarm_type r db.alarms l,
          one i.device_id i.alarm_type,
        ))

  -- The call of `ApplyIntent` behind an acknowledged message.
  handle_message-IsAcked :
      (i : Intent) (now : ℕ) (id : Text) (db : Db)
      → (handle_message (postgres refresh) marshal (some i) now id db).0 ≡ ack
      → (validate i ≡ none)
        × IsAcked (apply_intent (postgres refresh) marshal i now id db)
        × ((handle_message (postgres refresh) marshal (some i) now id db).1
            ≡ (apply_intent (postgres refresh) marshal i now id db).1)
  unfolding handle_message unless
  handle_message-IsAcked i now id db h = elim (Option-cases (validate i)) [
    | inl e ↦ (
      e,
      rw e at h,
      rw e (
          answer_state (postgres refresh) marshal
            (apply_intent (postgres refresh) marshal i now id db)),
    )
    | inr (x, e) ↦ cc (rw e at h)
  ]

  clear_failed :
      (i : Intent) (now : ℕ) (db : Db)
      → ¬ IsAcked (apply_clear (postgres refresh) marshal i now (find_failed, db))
  unfolding apply_clear answer
  clear_failed i now db h = cc h

  apply_intent_cleared :
      (i : Intent) (now : ℕ) (id : Text) (db : Db)
      → validate i ≡ none
      → i.action ≡ clear
      → OneActive db.alarms
      → IsAcked (apply_intent (postgres refresh) marshal i now id db)
      → count_active i.device_id i.alarm_type
          (apply_intent (postgres refresh) marshal i now id db).1.alarms
        ≡ 0
  unfolding apply_intent unless postgres find_active_alarm
  apply_intent_cleared i now id db v c one a =
      let t : text_eq i.action clear ≡ true = (text_eq_iff i.action clear).1 c in
      elim (Bool-cases (next_answer db.answers)) [
        | inl e ↦
            rw (v, t, e)
              (apply_clear_acked i now (latest i.device_id i.alarm_type db.alarms) (asked db) refl
                one (rw (v, t, e) at a))
        | inr e ↦ absurd (clear_failed i now (asked db) (rw (v, t, e) at a))
      ]

  -- An acknowledged, valid intent `clear` leaves no alarm of its device and type active.
  pub clear_acked :
      (i : Intent) (now : ℕ) (id : Text) (db : Db)
      → i.action ≡ clear
      → OneActive db.alarms
      → (handle_message (postgres refresh) marshal (some i) now id db).0 ≡ ack
      → count_active i.device_id i.alarm_type
          (handle_message (postgres refresh) marshal (some i) now id db).1.alarms
        ≡ 0
  clear_acked i now id db c one h =
      let (v, a, s) = handle_message-IsAcked i now id db h in
      rw s (apply_intent_cleared i now id db v c one a)

  insert_alarm_done :
      (a : AlarmRecord) (db : Db)
      → is_live a.device_id a.tenant_id db.devices ≡ true
      → (insert_alarm a db).0 ≢ insert_failed
      → (insert_alarm a db).0 ≡ inserted × (insert_alarm a db).1.alarms ≡ new_row a ∷ db.alarms
  unfolding insert_alarm
  insert_alarm_done a db l h = ground (arith, l)

  new_row_Raised :
      (i : Intent) (now : ℕ) (id info : Text)
      → is_active i.device_id i.alarm_type (new_row (new_alarm i now id info)) ≡ true
  unfolding is_active new_row
  new_row_Raised i now id info = ground (arith, text_eq_refl i.device_id, text_eq_refl i.alarm_type)

  extended_acked :
      (a : ActiveAlarm) (id : Text) (f : AlarmRow → AlarmRow) (db : Db)
      → IsAcked (extended_to (postgres refresh) marshal a (update_alarm id f db))
      → (extended_to (postgres refresh) marshal a (update_alarm id f db)).1.alarms
        ≡ update_rows id f db.alarms
  unfolding extended_to answer update_alarm
  extended_acked a id f db h = elim (Bool-cases (next_answer db.answers)) [
    | inl e ↦ rw e refl
    | inr e ↦ cc (rw e at h)
  ]

  found_Raised :
      (i : Intent) (f : AlarmRow → AlarmRow) (r : AlarmRow) (rows : List AlarmRow)
      → latest i.device_id i.alarm_type rows ≡ some r
      → is_active i.device_id i.alarm_type (f r) ≡ true
      → severity_rank i.severity ≤ severity_rank (f r).severity
      → Raised i (update_rows r.id f rows)
  found_Raised i f r rows l a le =
      Any-update_rows
        (λ r.
          (is_active i.device_id i.alarm_type r ≡ true)
          × (severity_rank i.severity ≤ severity_rank r.severity))
        f r rows (latest-In i.device_id i.alarm_type r rows l) (a, le)

  link_new_acked :
      (i : Intent) (now : ℕ) (id : Text) (p : Inserted × Db)
      → IsAcked (link_new (postgres refresh) marshal i now id p)
      → (p.0 ≢ insert_failed)
        × ((link_new (postgres refresh) marshal i now id p).1.alarms ≡ p.1.alarms)
  unfolding link_new answer postgres
  link_new_acked i now id (insert_failed, s) h = cc h
  link_new_acked i now id (originator_missing, s) h = (λ e. cc e, refl)
  link_new_acked i now id (inserted, s) h =
      let (d, e) = refreshed_acked i _ _ (link_entity_alarm (new_link i now id) s) h in
      (λ e. cc e, e ∙ link_entity_alarm-alarms (new_link i now id) s)

  create_acked :
      (i : Intent) (now : ℕ) (id : Text) (info : Option Text) (db : Db)
      → is_live i.device_id i.tenant_id db.devices ≡ true
      → IsAcked (create (postgres refresh) marshal i now id info db)
      → Raised i (create (postgres refresh) marshal i now id info db).1.alarms
  unfolding create answer postgres
  create_acked i now id none db d h = cc h
  create_acked i now id (some info) db d h =
      let (n, e) = link_new_acked i now id (insert_alarm (new_alarm i now id info) db) h in
      let (k, r) = insert_alarm_done (new_alarm i now id info) db d n in
      rw (e, r) (inl (new_row_Raised i now id info, omega arith))

  apply_update_acked :
      (i : Intent) (now : ℕ) (id : Text) (o : Option AlarmRow) (db : Db)
      → latest i.device_id i.alarm_type db.alarms ≡ o
      → is_live i.device_id i.tenant_id db.devices ≡ true
      → IsAcked (apply_update (postgres refresh) marshal i now id (to_found o, db))
      → Raised i (apply_update (postgres refresh) marshal i now id (to_found o, db)).1.alarms
  unfolding apply_update to_found postgres is_active
  apply_update_acked i now id none db l d h =
      create_acked i now id (marshal (additional_info i)) db d h
  apply_update_acked i now id (some r) db l d h =
      elim (Bool-cases (ltb (severity_rank r.severity) (severity_rank i.severity))) [
        | inl e ↦
            rw (e, updated_acked i _ _ r.id (escalated_row i.severity now) db (rw e at h))
              (found_Raised i (escalated_row i.severity now) r db.alarms l
                (latest-active i.device_id i.alarm_type r db.alarms l) (omega arith))
        | inr e ↦
            rw (e, extended_acked (to_active r) r.id (extended_row now) db (rw e at h))
              (found_Raised i (extended_row now) r db.alarms l
                (latest-active i.device_id i.alarm_type r db.alarms l) (ground (arith, e)))
      ]

  update_failed :
      (i : Intent) (now : ℕ) (id : Text) (db : Db)
      → ¬ IsAcked (apply_update (postgres refresh) marshal i now id (find_failed, db))
  unfolding apply_update answer
  update_failed i now id db h = cc h

  apply_intent-Raised :
      (i : Intent) (now : ℕ) (id : Text) (db : Db)
      → validate i ≡ none
      → text_eq i.action clear ≡ false
      → is_live i.device_id i.tenant_id db.devices ≡ true
      → IsAcked (apply_intent (postgres refresh) marshal i now id db)
      → Raised i (apply_intent (postgres refresh) marshal i now id db).1.alarms
  unfolding apply_intent unless postgres find_active_alarm
  apply_intent-Raised i now id db v t d a = elim (Bool-cases (next_answer db.answers)) [
    | inl e ↦
        rw (v, t, e)
          (apply_update_acked i now id (latest i.device_id i.alarm_type db.alarms) (asked db) refl d
            (rw (v, t, e) at a))
    | inr e ↦ absurd (update_failed i now id (asked db) (rw (v, t, e) at a))
  ]

  -- While the refresh of the counts leaves the alarms alone and the messages are handled one at a
  -- time: once an intent that is not `clear` is acknowledged, and its device exists in its tenant,
  -- the device has an active alarm of the type that is at least as severe as the intent.
  pub update_acked :
      (i : Intent) (now : ℕ) (id : Text) (db : Db)
      → i.action ≢ clear
      → is_live i.device_id i.tenant_id db.devices ≡ true
      → (handle_message (postgres refresh) marshal (some i) now id db).0 ≡ ack
      → Raised i (handle_message (postgres refresh) marshal (some i) now id db).1.alarms
  update_acked i now id db c d h =
      let (v, a, s) = handle_message-IsAcked i now id db h in
      rw s (apply_intent-Raised i now id db v (text_eq_ne i.action clear c) d a)
