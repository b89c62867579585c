-- ===== src/Rpc.antt =====
-- flow-core/internal/rpc/rpc.go: commands to devices whose replies are matched with the waiting
-- calls. A call and the listener of the replies run at the same time: what others do while a call
-- waits is a list of events. The identity that a message claims, which its token carries, is part of
-- the message.
pub mod Topics
pub mod Replies
pub mod Calls
mod Tests
use thingsflow.Base.{
  ℕ, suc, ◌+◌, List, [], ◌∷◌, ◌++◌, Bool, true, false, not, ◌&&◌, ◌||◌, Option, none, some, ◌==◌,
  if◌then◌else◌, length, get_elem?,
}
use thingsflow.Base.Text.{Text, codes, text_eq, trim, split}
use thingsflow.Base.Dict.{Dict, get, put, remove}
use thingsflow.Base.Result.{Result, ok, err}

-- `ResponseTopic`
unfoldable pub response_topic : Text → Text → Text
response_topic mqtt_id request_id =
    codes "thingsflow/devices/" ++ (mqtt_id ++ (codes "/rpc/response/" ++ request_id))

-- `parts[i]`, behind the test of the length.
unfoldable pub part : List Text → ℕ → Text
part parts i = elim (get_elem? parts i) [ none ↦ [] | some p ↦ p ]

unfoldable pub parse_parts : List Text → Option (Text × Text)
unfolding part text_eq
parse_parts parts =
    if not (length parts == 6)
      || (not (text_eq (part parts 0) (codes "thingsflow"))
          || (not (text_eq (part parts 1) (codes "devices"))
              || (not (text_eq (part parts 3) (codes "rpc"))
                  || not (text_eq (part parts 4) (codes "response")))))
    then none
    else if text_eq (part parts 2) [] || text_eq (part parts 5) []
    then none
    else some (part parts 2, part parts 5)

-- `ParseResponseTopic`
unfoldable pub parse_response_topic : Text → Option (Text × Text)
unfolding parse_parts split trim
parse_response_topic topic = parse_parts (split 47 (trim (λ c. c == 47) topic))

-- A bridged message, with the identity that `deviceIdentityFromUsername` reads of its header.
pub record Message : Type 0 where
  pub topic : Text
  pub claimed : Text
  pub payload : Text

-- The calls that wait, each with its channel, and the channels: the next one that `make` gives, and
-- what each holds in its buffer of one.
pub record State : Type 0 where
  pub pending : Dict ℕ
  pub next : ℕ
  pub buffers : ℕ → Option Text

-- The request that a message answers, unless it is dropped for its topic or its identity.
unfoldable pub addressed : Message → Option Text
unfolding parse_response_topic text_eq
addressed msg = elim (parse_response_topic msg.topic) [
  | none ↦ none
  | some (mqtt_id, request_id) ↦
      if not (text_eq msg.claimed []) && not (text_eq msg.claimed mqtt_id)
      then none
      else some request_id
]

-- The value of a channel's buffer after a send that does not block.
unfoldable pub kept : Text → Option Text → Option Text
kept payload none = some payload
kept payload (some held) = some held

unfoldable pub send : ℕ → Text → State → State
unfolding kept
send ch payload s = record s {
  buffers = λ i. if i == ch then kept payload (s.buffers i) else s.buffers i;
}

-- The send to the channel of the call that waits, if one does.
unfoldable pub deliver : Text → State → Option ℕ → State
unfolding send
deliver payload s none = s
deliver payload s (some ch) = send ch payload s

unfoldable pub route : Text → State → Option Text → State
unfolding deliver get
route payload s none = s
route payload s (some request_id) = deliver payload s (get s.pending request_id)

-- `handleResponse`
unfoldable pub handle_response : Message → State → State
unfolding route addressed
handle_response msg s = route msg.payload s (addressed msg)

-- The registration of a call, on a new channel.
unfoldable pub register : Text → State → State
unfolding put
register request_id s = record {
  pending = put s.pending request_id s.next;
  next = suc s.next;
  buffers = λ i. if i == s.next then none else s.buffers i;
}

-- The deferred removal.
unfoldable pub unregister : Text → State → State
unfolding remove
unregister request_id s = record s { pending = remove s.pending request_id }

-- What happens while a call waits: a message is handled, another call begins or ends.
pub data Event : Type 0 where
  arrives : Message → Event
  begins : Text → Event
  ends : Text → Event

unfoldable pub happen : Event → State → State
unfolding handle_response register unregister
happen (arrives msg) s = handle_response msg s
happen (begins request_id) s = register request_id s
happen (ends request_id) s = unregister request_id s

unfoldable pub run : List Event → State → State
unfolding happen
run [] s = s
run (e ∷ es) s = run es (happen e s)

-- What a call reads of its surroundings: the settings, the broker's answers, and the case of the
-- select that is taken.
pub data Wake : Type 0 where
  replied : Wake
  timed_out : Wake
  cancelled : Wake

pub record Broker : Type 0 where
  pub enabled : Bool
  pub listening : Bool
  pub online : Bool
  pub published : Bool

pub data RpcError : Type 0 where
  disabled : RpcError
  no_replies : RpcError
  offline : RpcError
  not_published : RpcError
  timeout : RpcError
  context_done : RpcError

-- The case of the select; that of the reply is not there while the buffer is empty.
unfoldable pub select : Wake → Option Text → Option (Result RpcError Text)
select replied none = none
select replied (some payload) = some (ok payload)
select timed_out held = some (err timeout)
select cancelled held = some (err context_done)

-- The part behind the registration, with the events until the select takes a case.
unfoldable pub await :
    Broker → Wake → List Event → Text → ℕ → State → Option (Result RpcError Text) × State
unfolding select run unregister
await broker wake events request_id ch s =
    if broker.published
    then (let s' = run events s in (select wake (s'.buffers ch), unregister request_id s'))
    else (some (err not_published), unregister request_id (run events s))

-- `SendTwoway`
unfoldable pub send_twoway :
    Broker → Wake → List Event → Text → State → Option (Result RpcError Text) × State
unfolding await register
send_twoway broker wake events request_id s =
    if not broker.enabled
    then (some (err disabled), s)
    else if not broker.listening
    then (some (err no_replies), s)
    else if not broker.online
    then (some (err offline), s)
    else await broker wake events request_id s.next (register request_id s)
