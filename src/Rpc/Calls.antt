-- ===== src/Rpc/Calls.antt =====
-- Which message the caller of flow-core/internal/rpc/rpc.go gets.
use thingsflow.Base.{
  ℕ, ◌<◌, List, [], ◌∷◌, ◌≡◌, ◌≢◌, refl, sym, ◌∙◌, ap, true, false, Option, none, some, ◌==◌,
  ==_iff, if◌then◌else◌, All, arith, Bool-cases, inl, inr,
}
use thingsflow.Base.Text.{Text, text_eq, text_eq_iff, text_eq_refl, text_eq_ne}
use thingsflow.Base.Dict.{get, get-put, get-remove}
use thingsflow.Base.Result.{err}
use thingsflow.Rpc.{
  State, addressed, kept, send, deliver, route, handle_response, register, unregister, Event,
  arrives, begins, ends, happen, run, Wake, Broker, select, await, send_twoway, not_published,
}
use thingsflow.Rpc.Replies.{FirstReply, first_reply, FirstReply-first_reply}

-- The event is not the begin or the end of a call with the same identifier.
abbrev pub Apart : Text → Event → Type 0
Apart request (arrives msg) = Unit
Apart request (begins r) = r ≢ request
Apart request (ends r) = r ≢ request

-- The waiting calls have channels that were made.
abbrev pub Allocated : State → Type 0
Allocated s = (r : Text) (c : ℕ) → get s.pending r ≡ some c → c < s.next

-- The call waits on the channel, and no other call does.
abbrev Waits : Text → ℕ → State → Type 0
Waits request ch s =
    (get s.pending request ≡ some ch)
    × (ch < s.next)
    × ((r : Text) → r ≢ request → get s.pending r ≢ some ch)

-- What the channel holds in the end: what it held, or else the first reply.
abbrev or_first : Option Text → Option Text → Option Text
or_first none later = later
or_first (some d) later = some d

or_first-none : (o : Option Text) → or_first o none ≡ o
or_first-none none = refl
or_first-none (some d) = refl

or_first_assoc : (a b c : Option Text) → or_first (or_first a b) c ≡ or_first a (or_first b c)
or_first_assoc none b c = refl
or_first_assoc (some d) b c = refl

kept_lem : (d : Text) (o : Option Text) → kept d o ≡ or_first o (some d)
unfolding kept
kept_lem d none = refl
kept_lem d (some e) = refl

route-calls :
    (d : Text) (s : State) (o : Option Text)
    → ((route d s o).pending ≡ s.pending) × ((route d s o).next ≡ s.next)
unfolding route deliver send
route-calls d s none = (refl, refl)
route-calls d s (some r) = go (get s.pending r)
  where
    go : (c : Option ℕ) → ((deliver d s c).pending ≡ s.pending) × ((deliver d s c).next ≡ s.next)
    go none = (refl, refl)
    go (some c) = (refl, refl)

happen-Waits :
    (request : Text) (ch : ℕ) (e : Event) (s : State)
    → Apart request e
    → Waits request ch s
    → Waits request ch (happen e s)
unfolding happen handle_response register unregister
happen-Waits request ch (arrives msg) s a (w, l, o) =
    let (p, n) = route-calls msg.payload s (addressed msg) in rw (p, n) (w, l, o)
happen-Waits request ch (begins r) s a (w, l, o) = (
  get-put s.pending r request s.next ∙ rw (text_eq_ne r request a) w,
  omega (arith, l),
  (λ q ne h. elim (Bool-cases (text_eq r q)) [
    | inl e ↦
        let made : some s.next ≡ some ch = rw e at (sym (get-put s.pending r q s.next) ∙ h) in
        let same : s.next ≡ ch = cc made in absurd (omega (arith, l, same))
    | inr e ↦ o q ne (rw e at (sym (get-put s.pending r q s.next) ∙ h))
  ]),
)
happen-Waits request ch (ends r) s a (w, l, o) = (
  get-remove s.pending r request ∙ rw (text_eq_ne r request a) w,
  l,
  (λ q ne h. elim (Bool-cases (text_eq r q)) [
    | inl e ↦ cc (rw e at (sym (get-remove s.pending r q) ∙ h))
    | inr e ↦ o q ne (rw e at (sym (get-remove s.pending r q) ∙ h))
  ]),
)

deliver-buffer :
    (d : Text) (s : State) (ch : ℕ) (o : Option ℕ)
    → (o ≢ some ch)
    → (deliver d s o).buffers ch ≡ s.buffers ch
unfolding deliver send
deliver-buffer d s ch none ne = refl
deliver-buffer d s ch (some c) ne = elim (Bool-cases (ch == c)) [
  | inl e ↦ absurd (ne (ap some (sym ((==_iff ch c).0 e))))
  | inr e ↦ rw e refl
]

route-buffer :
    (request : Text) (ch : ℕ) (d : Text) (s : State) (o : Option Text)
    → Waits request ch s
    → (route d s o).buffers ch
      ≡ or_first
          (s.buffers ch)
          (elim o [ none ↦ none | some r ↦ if text_eq r request then some d else none ])
unfolding route
route-buffer request ch d s none (w, l, o) = sym (or_first-none (s.buffers ch))
route-buffer request ch d s (some r) (w, l, o) = elim (Bool-cases (text_eq r request)) [
  | inl e ↦ rw e (
      rw ((text_eq_iff r request).0 e, w, deliver, send, (==_iff ch ch).1 refl)
        (kept_lem d (s.buffers ch)))
  | inr e ↦ rw e (
      deliver-buffer d s ch (get s.pending r) (o r (λ q. cc (e, (text_eq_iff r request).1 q)))
      ∙ sym (or_first-none (s.buffers ch)))
]

choose_rest :
    (request d : Text) (o later : Option Text)
    → or_first (elim o [ none ↦ none | some r ↦ if text_eq r request then some d else none ]) later
      ≡ elim o [ none ↦ later | some r ↦ if text_eq r request then some d else later ]
choose_rest request d none later = refl
choose_rest request d (some r) later = elim (Bool-cases (text_eq r request)) [
  | inl e ↦ rw e refl
  | inr e ↦ rw e refl
]

happen-buffer :
    (request : Text) (ch : ℕ) (e : Event) (s : State) (es : List Event)
    → Waits request ch s
    → or_first ((happen e s).buffers ch) (first_reply request es)
      ≡ or_first (s.buffers ch) (first_reply request (e ∷ es))
unfolding happen handle_response register unregister
happen-buffer request ch (arrives msg) s es w =
    ap (λ b. or_first b (first_reply request es))
      (route-buffer request ch msg.payload s (addressed msg) w)
    ∙ (or_first_assoc (s.buffers ch) _ (first_reply request es)
        ∙ ap (or_first (s.buffers ch))
            (choose_rest request msg.payload (addressed msg) (first_reply request es)))
happen-buffer request ch (begins r) s es (w, l, o) =
    let other : (ch == s.next) ≡ false = ground (arith, l) in rw other refl
happen-buffer request ch (ends r) s es w = refl

run-buffer :
    (request : Text) (ch : ℕ) (es : List Event) (s : State)
    → All (Apart request) es
    → Waits request ch s
    → (run es s).buffers ch ≡ or_first (s.buffers ch) (first_reply request es)
unfolding run
run-buffer request ch [] s a w = sym (or_first-none (s.buffers ch))
run-buffer request ch (e ∷ es) s a w =
    run-buffer request ch es (happen e s) a.1 (happen-Waits request ch e s a.0 w)
    ∙ happen-buffer request ch e s es w

-- A two-way call that gets to its registration, the switch, the listener and the device permitting,
-- on a state whose channels were made, while no other call with its identifier begins or ends: if
-- its publication fails it ends with that error, and else it ends with the reply, where the select
-- takes that case, exactly if a message that answers the request has been handled, and the reply is
-- the first of them. However it ends, no call waits under the identifier any more.
pub send_twoway-first_reply :
    (broker : Broker) (wake : Wake) (events : List Event) (request : Text) (s : State)
    (reply : Option Text)
    → broker.enabled ≡ true
    → broker.listening ≡ true
    → broker.online ≡ true
    → Allocated s
    → All (Apart request) events
    → FirstReply request events reply
    → ((send_twoway broker wake events request s).0
        ≡ (if broker.published then select wake reply else some (err not_published)))
      × (get (send_twoway broker wake events request s).1.pending request ≡ none)
unfolding send_twoway await unregister register
send_twoway-first_reply broker wake events request s reply on listening online made apart answers =
    let waits : Waits request s.next (register request s) = (
      get-put s.pending request request s.next ∙ rw (text_eq_refl request) refl,
      omega arith,
      (λ q ne h. elim (Bool-cases (text_eq request q)) [
        | inl e ↦ ne (sym ((text_eq_iff request q).0 e))
        | inr e ↦
            let old = made q s.next (rw e at (sym (get-put s.pending request q s.next) ∙ h)) in
            absurd (omega (arith, old))
      ]),
    ) in
    let buffer = run-buffer request s.next events (register request s) apart waits in
    let empty : (register request s).buffers s.next ≡ none =
      rw ((==_iff s.next s.next).1 refl) refl in
    elim (Bool-cases broker.published) [
      | inl published ↦
          rw (on, listening, online, published)
            (
              ap (select wake)
                  (buffer ∙ (rw empty refl ∙ FirstReply-first_reply request events reply answers)),
              get-remove _ request request ∙ rw (text_eq_refl request) refl,
            )
      | inr lost ↦
          rw (on, listening, online, lost)
            (refl, get-remove _ request request ∙ rw (text_eq_refl request) refl)
    ]
