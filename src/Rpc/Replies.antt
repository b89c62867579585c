-- ===== src/Rpc/Replies.antt =====
-- Which messages answer a request of flow-core/internal/rpc/rpc.go.
use thingsflow.Base.{
  Bool, not, ◌&&◌, List, [], ◌∷◌, ◌≡◌, ◌≢◌, ◌↔◌, ◌⊎◌, refl, sym, ◌∙◌, ap, true, false, Option, none,
  some, if◌then◌else◌, arith, Bool-cases, inl, inr,
}
use thingsflow.Base.Text.{Text, text_eq, text_eq_iff, text_eq_refl}
use thingsflow.Rpc.{Message, parse_response_topic, addressed, Event, arrives, begins, ends}

-- The message answers the request: its topic is a reply's for it, and the identity that it claims,
-- if it claims one, is the device's in the topic.
abbrev pub Answers : Message → Text → Type 0
Answers msg request =
    (mqtt_id : Text) × (parse_response_topic msg.topic ≡ some (mqtt_id, request))
    × ((msg.claimed ≡ []) ⊎ (msg.claimed ≡ mqtt_id))

-- The payload of the first message among the events that answers the request, if one does.
abbrev pub FirstReply : Text → List Event → Option Text → Type 0
FirstReply request [] o = o ≡ none
FirstReply request (begins r ∷ es) o = FirstReply request es o
FirstReply request (ends r ∷ es) o = FirstReply request es o
FirstReply request (arrives msg ∷ es) o =
    (Answers msg request × (o ≡ some msg.payload))
    ⊎ ((¬ Answers msg request) × FirstReply request es o)

addressed_iff :
    (msg : Message) (request : Text) → (addressed msg ≡ some request) ↔ Answers msg request
unfolding addressed
addressed_iff msg request = go (parse_response_topic msg.topic)
  where
    one_of : {a b : Bool} → (a ≡ true) ⊎ (b ≡ true) → (not a && not b) ≢ true
    one_of {a = a} {b = b} h = λ e. ground arith

    either : {a b : Bool} → (not a && not b) ≡ false → (a ≡ true) ⊎ (b ≡ true)
    either {a = a} {b = b} e = ground arith

    go :
        (o : Option (Text × Text))
        → (elim o [
          | none ↦ none
          | some (mqtt_id, request_id) ↦
              if not (text_eq msg.claimed []) && not (text_eq msg.claimed mqtt_id)
              then none
              else some request_id
        ]
            ≡ some request)
          ↔ ((mqtt_id : Text) × (o ≡ some (mqtt_id, request))
              × ((msg.claimed ≡ []) ⊎ (msg.claimed ≡ mqtt_id)))
    go none = ((λ h. cc h), (λ h. cc (h.1)))
    go (some (mqtt_id, request_id)) =
        let blank = text_eq_iff msg.claimed [] in
        let same = text_eq_iff msg.claimed mqtt_id in
        elim (Bool-cases (not (text_eq msg.claimed []) && not (text_eq msg.claimed mqtt_id))) [
          | inl e ↦ (
            (λ h. cc (rw e at h)),
            (λ h. elim h.2 [
              | inl b ↦ absurd (one_of (inl (blank.1 b)) e)
              | inr c ↦
                  let device : mqtt_id ≡ h.0 = cc (h.1) in
                  absurd (one_of (inr (same.1 (c ∙ sym device))) e)
            ]),
          )
          | inr e ↦ (
            (λ h.
                let kept : some request_id ≡ some request = rw e at h in
                let named : request_id ≡ request = cc kept in
                (
                  mqtt_id,
                  ap (λ r. some (mqtt_id, r)) named,
                  elim (either e) [ inl b ↦ inl (blank.0 b) | inr c ↦ inr (same.0 c) ],
                )),
            (λ h. let named : request_id ≡ request = cc (h.1) in rw e (ap some named)),
          )
        ]

-- The first payload that the events bring, by the test of the code.
abbrev pub first_reply : Text → List Event → Option Text
first_reply request [] = none
first_reply request (begins r ∷ es) = first_reply request es
first_reply request (ends r ∷ es) = first_reply request es
first_reply request (arrives msg ∷ es) =
    let rest = first_reply request es in
    elim (addressed msg) [
      | none ↦ rest
      | some r ↦ if text_eq r request then some msg.payload else rest
    ]

pub FirstReply-first_reply :
    (request : Text) (es : List Event) (o : Option Text)
    → FirstReply request es o
    → first_reply request es ≡ o
FirstReply-first_reply request [] o h = sym h
FirstReply-first_reply request (begins r ∷ es) o h = FirstReply-first_reply request es o h
FirstReply-first_reply request (ends r ∷ es) o h = FirstReply-first_reply request es o h
FirstReply-first_reply request (arrives msg ∷ es) o (inl (a, e)) =
    rw (first_reply, (addressed_iff msg request).1 a, text_eq_refl request) (sym e)
FirstReply-first_reply request (arrives msg ∷ es) o (inr (n, h)) =
    other (addressed msg) refl ∙ FirstReply-first_reply request es o h
  where
    other :
        (t : Option Text)
        → addressed msg ≡ t
        → elim t [
          | none ↦ first_reply request es
          | some r ↦ if text_eq r request then some msg.payload else first_reply request es
        ]
          ≡ first_reply request es
    other none q = refl
    other (some r) q = elim (Bool-cases (text_eq r request)) [
      | inl e ↦
          absurd (n ((addressed_iff msg request).0 (q ∙ ap some ((text_eq_iff r request).0 e))))
      | inr e ↦ rw e refl
    ]
