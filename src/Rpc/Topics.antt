-- ===== src/Rpc/Topics.antt =====
-- The topics of the replies in flow-core/internal/rpc/rpc.go.
use thingsflow.Base.{ℕ, [], ◌∷◌, ◌++◌, ◌≡◌, ◌≢◌, refl, sym, ◌∙◌, ap, Bool, false, some, ◌==◌, arith}
use thingsflow.Base.Text.{
  Text, codes, text_eq, text_eq_ne, Free, split, prepend, split-append, trim, trim_right,
  keep_before,
}
use thingsflow.Base.Trim.{trim-append_self}
use thingsflow.Rpc.{response_topic, parse_parts, parse_response_topic, part}
use mathlib.Core.List.{append_assoc}

abbrev is_slash : ℕ → Bool
is_slash c = c == 47

split-Free : (s : Text) → Free 47 s → split 47 s ≡ s ∷ []
unfolding split
split-Free [] h = refl
split-Free (c ∷ s) h =
    let other : (c == 47) ≡ false = ground (arith, h.0) in
    rw (other, split-Free s h.1, prepend) refl

trim_right-Free : (s : Text) → Free 47 s → trim_right is_slash s ≡ s
unfolding trim_right
trim_right-Free [] h = refl
trim_right-Free (c ∷ s) h = rw (trim_right-Free s h.1) (kept s)
  where
    kept : (r : Text) → keep_before is_slash c r ≡ c ∷ r
    kept [] =
        let other : (c == 47) ≡ false = ground (arith, h.0) in unfold keep_before in rw other refl
    kept (d ∷ r) = unfold keep_before in refl

response_topic-trimmed :
    (mqtt_id request_id : Text)
    → request_id ≢ []
    → Free 47 request_id
    → trim is_slash (response_topic mqtt_id request_id) ≡ response_topic mqtt_id request_id
response_topic-trimmed mqtt_id request_id r fr =
    let whole : response_topic mqtt_id request_id
        ≡ 116
          ∷ ((codes "hingsflow/devices/" ++ (mqtt_id ++ codes "/rpc/response/")) ++ request_id) =
      unfold response_topic in
      ap (λ t. codes "thingsflow/devices/" ++ t)
        (sym (append_assoc mqtt_id (codes "/rpc/response/") request_id)) in
    rw whole (
      trim-append_self is_slash 116
        (codes "hingsflow/devices/" ++ (mqtt_id ++ codes "/rpc/response/")) request_id refl
        (trim_right-Free request_id fr) r)

split-response_topic :
    (mqtt_id request_id : Text)
    → Free 47 mqtt_id
    → Free 47 request_id
    → split 47 (response_topic mqtt_id request_id)
      ≡ codes "thingsflow"
        ∷ codes "devices"
        ∷ mqtt_id
        ∷ codes "rpc"
        ∷ codes "response"
        ∷ request_id
        ∷ []
split-response_topic mqtt_id request_id fm fr =
    let flat : response_topic mqtt_id request_id
        ≡ codes "thingsflow"
          ++ (47
              ∷ (codes "devices"
                  ++ (47
                      ∷ (mqtt_id
                          ++ (47
                              ∷ (codes "rpc"
                                  ++ (47 ∷ (codes "response" ++ (47 ∷ request_id))))))))) =
      unfold response_topic in refl in
    let rpc : split 47 (codes "rpc" ++ (47 ∷ (codes "response" ++ (47 ∷ request_id))))
        ≡ codes "rpc" ∷ codes "response" ∷ request_id ∷ [] =
      split-append 47 (codes "rpc") _
      ∙ rw (split-append 47 (codes "response") request_id, split-Free request_id fr)
          (unfold split prepend in refl) in
    rw flat (
      split-append 47 (codes "thingsflow") _
      ∙ rw
          (
            split-append 47 (codes "devices")
                (mqtt_id ++ (47 ∷ (codes "rpc" ++ (47 ∷ (codes "response" ++ (47 ∷ request_id)))))),
            split-append 47 mqtt_id (codes "rpc" ++ (47 ∷ (codes "response" ++ (47 ∷ request_id)))),
            split-Free mqtt_id fm,
            rpc,
          )
          (unfold split prepend in refl))

-- A reply topic is read back: for identifiers that are not empty and have no slash,
-- `ParseResponseTopic` finds in what `ResponseTopic` gives the device and the request.
pub parse-response_topic :
    (mqtt_id request_id : Text)
    → mqtt_id ≢ []
    → request_id ≢ []
    → Free 47 mqtt_id
    → Free 47 request_id
    → parse_response_topic (response_topic mqtt_id request_id) ≡ some (mqtt_id, request_id)
parse-response_topic mqtt_id request_id m r fm fr =
    unfold parse_response_topic in
    rw
      (
        response_topic-trimmed mqtt_id request_id r fr,
        split-response_topic mqtt_id request_id fm fr,
        parse_parts,
        part,
        text_eq_ne mqtt_id [] m,
        text_eq_ne request_id [] r,
        text_eq,
      )
      refl
