-- ===== src/Rpc/Tests.antt =====
-- Runs and instances of the theorems on the calls of devices.
use thingsflow.Base.{
  ◌∙◌, sym, inl, inr, ◌≡◌, ◌≢◌, refl, [], ◌∷◌, List, true, none, some, arith, All, if◌then◌else◌,
}
use thingsflow.Base.Result.{err}
use thingsflow.Base.Text.{Text, codes, text_eq}
use thingsflow.Base.Dict.{get}
use thingsflow.Rpc.{
  Message, State, Event, arrives, begins, Broker, replied, response_topic, parse_response_topic,
  send_twoway, select, not_published,
}
use thingsflow.Rpc.Topics.{parse-response_topic}
use thingsflow.Rpc.Replies.{Answers, FirstReply}
use thingsflow.Rpc.Calls.{send_twoway-first_reply, Allocated, Apart}

abbrev dev : Text
dev = codes "dev"

abbrev r1 : Text
r1 = codes "r1"

parse-response_topic_example : parse_response_topic (response_topic dev r1) ≡ some (dev, r1)
parse-response_topic_example =
    parse-response_topic dev r1 (λ e. cc e) (λ e. cc e)
      ((λ e. omega (arith, e)), ((λ e. omega (arith, e)), ((λ e. omega (arith, e)), tt)))
      ((λ e. omega (arith, e)), ((λ e. omega (arith, e)), tt))

abbrev idle : State
idle = record { pending = []; next = 0; buffers = λ i. none }

abbrev broker : Broker
broker = record { enabled = true; listening = true; online = true; published = true }

abbrev reply_of : Text → Text → Message
reply_of claimed payload = record {
  topic = codes "thingsflow/devices/dev/rpc/response/r1";
  claimed = claimed;
  payload = payload;
}

-- A forged reply, one of another call, and two replies.
abbrev events : List Event
events =
    arrives (reply_of (codes "other") (codes "bad"))
    ∷ begins (codes "r2")
    ∷ arrives (reply_of dev (codes "yes"))
    ∷ arrives (reply_of [] (codes "no"))
    ∷ []

other≢dev : codes "other" ≢ dev
other≢dev = ground arith

read_back : parse_response_topic (codes "thingsflow/devices/dev/rpc/response/r1") ≡ some (dev, r1)
unfolding parse_response_topic text_eq
read_back = refl

forged : ¬ Answers (reply_of (codes "other") (codes "bad")) r1
forged = λ h. elim h.2 [
  | inl e ↦ cc e
  | inr e ↦ let device : dev ≡ h.0 = cc (read_back, h.1) in absurd (other≢dev (e ∙ sym device))
]

answered : Answers (reply_of dev (codes "yes")) r1
unfolding parse_response_topic text_eq
answered = (dev, refl, inr refl)

first : FirstReply r1 events (some (codes "yes"))
first = inr (forged, inl (answered, refl))

idle-Allocated : Allocated idle
unfolding get
idle-Allocated = λ r c h. cc h

r2≢r1 : codes "r2" ≢ r1
r2≢r1 = ground arith

events-Apart : All (Apart r1) events
events-Apart = (tt, (r2≢r1, (tt, (tt, tt))))

send_twoway-first_reply_example :
    ((send_twoway broker replied events r1 idle).0 ≡ (
      if broker.published then select replied (some (codes "yes")) else some (err not_published)))
    × (get (send_twoway broker replied events r1 idle).1.pending r1 ≡ none)
send_twoway-first_reply_example =
    send_twoway-first_reply broker replied events r1 idle (some (codes "yes")) refl refl refl
      idle-Allocated events-Apart first
