-- ===== src/Alarm/Intent.antt =====
-- flow-core/internal/alarmmaterializer/intent.go, and the severities of processor.go.
use thingsflow.Base.{ℕ, [], not, ◌&&◌, Option, none, some, if◌then◌else◌}
use thingsflow.Base.Text.{Text, codes, text_eq}
use thingsflow.Base.Dict.{Dict}
use thingsflow.Base.Int.{ℤ}

abbrev pub create_or_update : Text
create_or_update = codes "create_or_update"

abbrev pub clear : Text
clear = codes "clear"

-- An intent; the values of `details` are JSON texts.
pub record Intent : Type 0 where
  pub action : Text
  pub tenant_id : Text
  pub device_id : Text
  pub alarm_type : Text
  pub severity : Text
  pub ts : ℤ
  pub details : Dict Text

pub data IntentError : Type 0 where
  invalid_action missing_tenant missing_device missing_type missing_severity : IntentError

-- The error of `Validate`, if there is one.
unfoldable pub validate : Intent → Option IntentError
validate i =
    if not (text_eq i.action create_or_update) && not (text_eq i.action clear)
    then some invalid_action
    else if text_eq i.tenant_id []
    then some missing_tenant
    else if text_eq i.device_id []
    then some missing_device
    else if text_eq i.alarm_type []
    then some missing_type
    else if text_eq i.action create_or_update && text_eq i.severity []
    then some missing_severity
    else none

-- `severityRank`, one higher: an unknown severity, -1 there, is 0.
unfoldable pub severity_rank : Text → ℕ
severity_rank s =
    if text_eq s (codes "CRITICAL")
    then 5
    else if text_eq s (codes "MAJOR")
    then 4
    else if text_eq s (codes "MINOR")
    then 3
    else if text_eq s (codes "WARNING")
    then 2
    else if text_eq s (codes "INDETERMINATE")
    then 1
    else 0
