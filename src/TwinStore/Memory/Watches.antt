-- ===== src/TwinStore/Memory/Watches.antt =====
-- The channels of the watches of twinstore/store.go: what is open, how full a buffer gets, and what
-- a notification does that comes late.
use thingsflow.Base.{
  ℕ, ◌≤◌, List, [], ◌∷◌, ◌≡◌, refl, subst, ap, ◌∙◌, Bool, true, false, not, Option, none, some,
  arith, Bool-cases, Option-cases, inl, inr, All, All-map, In, ◌==◌, if◌then◌else◌, length,
  length-append,
}
use thingsflow.Base.Text.{Text}
use thingsflow.TwinStore.Memory.{
  Change, Channel, MemoryWatch, buffer_size, offer, send, send_if, is_watched, notify,
}

-- The channel has been made and not been closed.
unfoldable pub is_open : ℕ → List Channel → Bool
is_open id [] = false
is_open id (c ∷ cs) = if c.id == id then not c.closed else is_open id cs

unfoldable pub is_closed : ℕ → List Channel → Bool
is_closed id [] = false
is_closed id (c ∷ cs) = if c.id == id then c.closed else is_closed id cs

abbrev pub Bounded : List Channel → Type 0
Bounded cs = All (λ c. length c.queue ≤ buffer_size) cs

offer_bounded :
    (change : Change) (queue : List Change)
    → length queue ≤ buffer_size
    → length (offer change queue) ≤ buffer_size
unfolding offer
offer_bounded change queue h = ground (arith, length-append queue (change ∷ []))

-- A send to a channel that is not closed goes through, and changes neither what is open nor what is
-- closed.
send-some :
    (id : ℕ) (change : Change) (cs : List Channel)
    → is_closed id cs ≡ false
    → (cs' : List Channel) × (send id change cs ≡ some cs')
unfolding send is_closed
send-some id change [] h = ([], refl)
send-some id change (c ∷ cs) h = elim (Bool-cases (c.id == id)) [
  | inl e ↦ elim (Bool-cases c.closed) [
    | inl d ↦ ground (arith, e, d)
    | inr d ↦ (record c { queue = offer change c.queue } ∷ cs, rw (e, d))
  ]
  | inr e ↦ let (cs', q) = send-some id change cs (ground (arith, e)) in (c ∷ cs', rw (e, q))
]

-- The same channels are open and closed, and no buffer has come to hold too much.
abbrev pub Alike : List Channel → List Channel → Type 0
Alike cs cs' =
    ((i : ℕ) → (is_open i cs' ≡ is_open i cs) × (is_closed i cs' ≡ is_closed i cs))
    × (Bounded cs → Bounded cs')

Alike-refl : (cs : List Channel) → Alike cs cs
Alike-refl cs = ((λ i. (refl, refl)), (λ b. b))

Alike-trans : (cs ds es : List Channel) → Alike cs ds → Alike ds es → Alike cs es
Alike-trans cs ds es (p, b) (q, d) = ((λ i. ((q i).0 ∙ (p i).0, (q i).1 ∙ (p i).1)), (λ h. d (b h)))

Alike-offered :
    (change : Change) (c : Channel) (cs : List Channel)
    → Alike (c ∷ cs) (record c { queue = offer change c.queue } ∷ cs)
unfolding is_open is_closed
Alike-offered change c cs = ((λ i. (refl, refl)), (λ b. (offer_bounded change c.queue b.0, b.1)))

Alike-cons : (c : Channel) (cs cs' : List Channel) → Alike cs cs' → Alike (c ∷ cs) (c ∷ cs')
unfolding is_open is_closed
Alike-cons c cs cs' (p, b) = ((λ i. (rw (p i).0, rw (p i).1)), (λ h. (h.0, b h.1)))

send-Alike :
    (id : ℕ) (change : Change) (cs cs' : List Channel) → send id change cs ≡ some cs' → Alike cs cs'
unfolding send
send-Alike id change [] cs' h = subst (Alike []) (cc h) (Alike-refl [])
send-Alike id change (c ∷ cs) cs' h = elim (Bool-cases (c.id == id)) [
  | inl e ↦ elim (Bool-cases c.closed) [
    | inl d ↦ cc (rw (e, d) at h)
    | inr d ↦ subst (Alike (c ∷ cs)) (cc (rw (e, d) at h)) (Alike-offered change c cs)
  ]
  | inr e ↦ elim (Option-cases (send id change cs)) [
    | inl n ↦ cc (rw (e, n) at h)
    | inr (ds, n) ↦
        subst (Alike (c ∷ cs)) (cc (rw (e, n) at h))
          (Alike-cons c cs ds (send-Alike id change cs ds n))
  ]
]

send_if-Alike :
    (wanted : Bool) (id : ℕ) (change : Change) (cs cs' : List Channel)
    → send_if wanted id change cs ≡ some cs'
    → Alike cs cs'
unfolding send_if
send_if-Alike true id change cs cs' h = send-Alike id change cs cs' h
send_if-Alike false id change cs cs' h = subst (Alike cs) (cc h) (Alike-refl cs)

send_if-some :
    (wanted : Bool) (id : ℕ) (change : Change) (cs : List Channel)
    → is_closed id cs ≡ false
    → (ds : List Channel) × (send_if wanted id change cs ≡ some ds)
unfolding send_if
send_if-some true id change cs h = send-some id change cs h
send_if-some false id change cs h = (cs, refl)

notify-cons :
    (k : Text) (w : MemoryWatch) (ws : List MemoryWatch) (change : Change) (cs : List Channel)
    {o : Option (List Channel)}
    → send_if (is_watched k w) w.channel change cs ≡ o
    → notify k (w ∷ ws) change cs ≡ (elim o [ none ↦ none | some ds ↦ notify k ws change ds ])
unfolding notify
notify-cons k w ws change cs {o} q =
    ap
      (λ (x : Option (List Channel)). elim x as (λ _. Option (List Channel)) [
        | none ↦ none
        | some ds ↦ notify k ws change ds
      ])
      q

-- A notification whose watches have channels that are not closed goes through.
pub notify-some :
    (k : Text) (ws : List MemoryWatch) (change : Change) (cs : List Channel)
    → All (λ w. is_closed w.channel cs ≡ false) ws
    → (cs' : List Channel) × (notify k ws change cs ≡ some cs') × Alike cs cs'
unfolding notify
notify-some k [] change cs h = (cs, refl, Alike-refl cs)
notify-some k (w ∷ ws) change cs h =
    let (ds, q) = send_if-some (is_watched k w) w.channel change cs h.0 in
    let a = send_if-Alike (is_watched k w) w.channel change cs ds q in
    let (es, r, b) =
      notify-some k ws change ds (All-map _ _ ws (λ v n. (a.0 v.channel).1 ∙ n) h.1) in
    (es, notify-cons k w ws change cs q ∙ r, Alike-trans cs ds es a b)

send-closed :
    (id : ℕ) (change : Change) (cs : List Channel)
    → is_closed id cs ≡ true
    → send id change cs ≡ none
unfolding send is_closed
send-closed id change [] h = cc
send-closed id change (c ∷ cs) h = ground (arith, send-closed id change cs)

-- A notification of a watch whose channel is closed panics, whatever it sends before.
pub notify-closed :
    (k : Text) (w : MemoryWatch) (ws : List MemoryWatch) (change : Change) (cs : List Channel)
    → In w ws
    → is_watched k w ≡ true
    → is_closed w.channel cs ≡ true
    → notify k ws change cs ≡ none
unfolding notify
notify-closed k w [] change cs m h c = elim m [ ]
notify-closed k w (v ∷ ws) change cs (inl e) h c = notify-cons k v ws change cs (
    subst (λ (x : MemoryWatch). send_if (is_watched k x) x.channel change cs ≡ none) e
      (rw h (unfold send_if in send-closed w.channel change cs c)))
notify-closed k w (v ∷ ws) change cs (inr m) h c =
    elim (Option-cases (send_if (is_watched k v) v.channel change cs)) [
      | inl n ↦ notify-cons k v ws change cs n
      | inr (ds, n) ↦
          notify-cons k v ws change cs n
          ∙ notify-closed k w ws change ds m h
              (((send_if-Alike (is_watched k v) v.channel change cs ds n).0 w.channel).1 ∙ c)
    ]
