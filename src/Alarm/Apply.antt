-- ===== src/Alarm/Apply.antt =====
-- `ApplyIntent` of flow-core/internal/alarmmaterializer/processor.go over the interface
-- `Repository`, and `handleMessage` of flow-core/cmd/alarm-materializer/main.go. Every call may
-- fail, and what was written before stays written. A message is handled to its end in one step:
-- the source runs its statements without a transaction or a lock, so another handler of the queue
-- group may write between them. Such an interleaving is composed of `find` and of `apply_update`
-- or `apply_clear`, the part of `apply_intent` behind it, as the tests do.
use thingsflow.Base.{ℕ, [], ◌∷◌, Bool, true, false, Option, none, some, ltb, if◌then◌else◌}
use thingsflow.Base.Text.{Text, codes, text_eq}
use thingsflow.Base.Dict.{Dict}
use thingsflow.Base.Int.{ℤ, pos, lt_int}
use thingsflow.Base.Result.{Result, ok, err}
use thingsflow.Alarm.Intent.{Intent, IntentError, clear, validate, severity_rank}

pub record ActiveAlarm : Type 0 where
  pub id : Text
  pub device_id : Text
  pub alarm_type : Text
  pub severity : Text

pub record AlarmRecord : Type 0 where
  pub id : Text
  pub tenant_id : Text
  pub device_id : Text
  pub alarm_type : Text
  pub severity : Text
  pub created_time : ℕ
  pub start_ts : ℕ
  pub end_ts : ℕ
  pub additional_info : Text

pub record EntityAlarmLink : Type 0 where
  pub tenant_id : Text
  pub device_id : Text
  pub created_time : ℕ
  pub alarm_type : Text
  pub alarm_id : Text

-- What `FindActiveAlarm` returns: an alarm, `sql.ErrNoRows`, or another error.
pub data Found : Type 0 where
  active : ActiveAlarm → Found
  no_rows find_failed : Found

-- What `InsertAlarm` returns: no error, `ErrOriginatorMissing`, or another error.
pub data Inserted : Type 0 where
  inserted originator_missing insert_failed : Inserted

-- The interface, over the state of the store. A Boolean result tells whether there was no error.
pub record Repository (S : Type 0) : Type 0 where
  pub find : Text → Text → S → Found × S
  pub insert : AlarmRecord → S → Inserted × S
  pub link : EntityAlarmLink → S → Bool × S
  pub extend : Text → ℕ → S → Bool × S
  pub escalate : Text → Text → ℕ → S → Bool × S
  pub clear_alarm : Text → ℕ → S → Bool × S
  pub refresh : Text → Text → S → Bool × S

pub data Action : Type 0 where
  noop cleared escalated extended created : Action

pub record ApplyResult : Type 0 where
  pub action : Action
  pub alarm_id : Text

pub data ApplyError : Type 0 where
  invalid : IntentError → ApplyError
  find_error clear_error refresh_error escalate_error extend_error info_error insert_error
        link_error :
      ApplyError

-- The object that `additionalInfoJSON` encodes.
pub record AdditionalInfo : Type 0 where
  pub source : Text
  pub event_ts : Option ℤ
  pub details : Option (Dict Text)

abbrev filled : Dict Text → Option (Dict Text)
filled [] = none
filled (e ∷ m) = some (e ∷ m)

unfoldable pub additional_info : Intent → AdditionalInfo
unfolding lt_int
additional_info i = record {
  source = codes "bento-nats-alarms";
  event_ts = if lt_int (pos 0) i.ts then some i.ts else none;
  details = filled i.details;
}

abbrev pub new_alarm : Intent → ℕ → Text → Text → AlarmRecord
new_alarm i now id info = record {
  id = id;
  tenant_id = i.tenant_id;
  device_id = i.device_id;
  alarm_type = i.alarm_type;
  severity = i.severity;
  created_time = now;
  start_ts = now;
  end_ts = now;
  additional_info = info;
}

abbrev pub new_link : Intent → ℕ → Text → EntityAlarmLink
new_link i now id = record {
  tenant_id = i.tenant_id;
  device_id = i.device_id;
  created_time = now;
  alarm_type = i.alarm_type;
  alarm_id = id;
}

-- How a message is answered.
pub data Reply : Type 0 where
  term nak ack : Reply

-- `if err := intent.Validate(); err != nil`
unfoldable pub unless {ℓ} : {A : Type ℓ} → Option IntentError → (IntentError → A) → A → A
unless none refuse a = a
unless (some e) refuse a = refuse e

-- `marshal` is `json.Marshal` of the additional information, `none` where it fails.
module _ {S : Type 0} (repo : Repository S) (marshal : AdditionalInfo → Option Text) where
  abbrev pub Applied : Type 0
  Applied = Result ApplyError ApplyResult × S

  -- The result of `RefreshAncestorAlarmCounts`.
  unfoldable pub finished : ApplyResult → Bool × S → Applied
  finished done (true, s) = (ok done, s)
  finished done (false, s) = (err refresh_error, s)

  -- The end of a branch: an error of the call before, or the refresh of the ancestors' counts.
  unfoldable pub refreshed : Intent → ApplyError → ApplyResult → Bool × S → Applied
  unfolding finished
  refreshed i failed done (false, s) = (err failed, s)
  refreshed i failed done (true, s) = finished done (repo.refresh i.tenant_id i.device_id s)

  unfoldable pub apply_clear : Intent → ℕ → Found × S → Applied
  unfolding refreshed
  apply_clear i now (find_failed, s) = (err find_error, s)
  apply_clear i now (no_rows, s) = (ok (record { action = noop; alarm_id = [] }), s)
  apply_clear i now (active a, s) =
      refreshed i clear_error (record { action = cleared; alarm_id = a.id })
        (repo.clear_alarm a.id now s)

  unfoldable pub link_new : Intent → ℕ → Text → Inserted × S → Applied
  unfolding refreshed
  link_new i now id (insert_failed, s) = (err insert_error, s)
  link_new i now id (originator_missing, s) = (ok (record { action = noop; alarm_id = [] }), s)
  link_new i now id (inserted, s) =
      refreshed i link_error (record { action = created; alarm_id = id })
        (repo.link (new_link i now id) s)

  unfoldable pub create : Intent → ℕ → Text → Option Text → S → Applied
  unfolding link_new
  create i now id none s = (err info_error, s)
  create i now id (some info) s = link_new i now id (repo.insert (new_alarm i now id info) s)

  -- The result of `ExtendAlarm`, which no refresh follows.
  unfoldable pub extended_to : ActiveAlarm → Bool × S → Applied
  extended_to a (true, s) = (ok (record { action = extended; alarm_id = a.id }), s)
  extended_to a (false, s) = (err extend_error, s)

  unfoldable pub apply_update : Intent → ℕ → Text → Found × S → Applied
  unfolding create refreshed extended_to additional_info lt_int
  apply_update i now new_id (find_failed, s) = (err find_error, s)
  apply_update i now new_id (active a, s) =
      if ltb (severity_rank a.severity) (severity_rank i.severity)
      then refreshed i escalate_error (record { action = escalated; alarm_id = a.id })
          (repo.escalate a.id i.severity now s)
      else extended_to a (repo.extend a.id now s)
  apply_update i now new_id (no_rows, s) = create i now new_id (marshal (additional_info i)) s

  -- `new_id` is what `newID` returns if it is called.
  unfoldable pub apply_intent : Intent → ℕ → Text → S → Applied
  unfolding unless apply_clear apply_update
  apply_intent i now new_id s =
      let found = repo.find i.device_id i.alarm_type s in
      unless (validate i) (λ e. (err (invalid e), s))
        (if text_eq i.action clear
          then apply_clear i now found
          else apply_update i now new_id found)

  unfoldable pub answer : Applied → Reply × S
  answer (ok r, s) = (ack, s)
  answer (err e, s) = (nak, s)

  -- `handleMessage`, with no other handler's statements between its own: the decoded intent is
  -- `none` where the message is no JSON of an intent.
  unfoldable pub handle_message : Option Intent → ℕ → Text → S → Reply × S
  unfolding unless answer
  handle_message none now new_id s = (term, s)
  handle_message (some i) now new_id s =
      unless (validate i) (λ e. (term, s)) (answer (apply_intent i now new_id s))
