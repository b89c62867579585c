-- ===== src/TwinStore/Memory/Merged.antt =====
-- A merge into the `MemoryStore` of twinstore/store.go and its notification, taken together and
-- with a cancellation in between.
use thingsflow.Base.{
  ℕ, ◌<◌, List, [], ◌∷◌, ◌≡◌, ◌≢◌, refl, ◌∙◌, true, false, none, some, arith, All, All-map, All-In,
  In, if◌then◌else◌, ◌⊎◌,
}
use thingsflow.Base.Text.{Text, text_eq}
use thingsflow.Base.Dict.{get, put, get-put}
use thingsflow.TwinStore.{State, key, ensure_state}
use thingsflow.TwinStore.Memory.{
  Channel, MemoryWatch, MemoryStore, is_watched, deliver, merge_locked, held_state, close, cancel,
}
use thingsflow.TwinStore.Memory.Watches.{is_open, is_closed, Bounded, notify-some, notify-closed}

-- The channel of a watch is another watch's.
abbrev pub Shares : MemoryWatch → List MemoryWatch → Type 0
Shares w [] = ⊥
Shares w (v ∷ ws) = (v.channel ≡ w.channel) ⊎ Shares w ws

abbrev pub Unshared : List MemoryWatch → Type 0
Unshared [] = Unit
Unshared (w ∷ ws) = (¬ Shares w ws) × Unshared ws

-- The listed watches have open channels of their own, and no buffer holds more than its size.
pub record IsValid (s : MemoryStore) : Type 0 where
  pub opened : All (λ w. is_open w.channel s.channels ≡ true) s.watches
  pub unshared : Unshared s.watches
  pub numbered : All (λ w. w.channel < s.made) s.watches
  pub bounded : Bounded s.channels

is_open-not_closed : (id : ℕ) (cs : List Channel) → is_open id cs ≡ true → is_closed id cs ≡ false
unfolding is_open is_closed
is_open-not_closed id [] h = refl
is_open-not_closed id (c ∷ cs) h = ground (arith, is_open-not_closed id cs)

-- A merge whose notification follows at once does not panic. It leaves the merged document under
-- the entity's key and every other document as it was, and keeps the channels of the watches open,
-- unshared and within their buffers.
pub deliver-merge :
    (f : State → State) (tenant_id entity_type entity_id : Text) (s : MemoryStore)
    → IsValid s
    → (after : MemoryStore) × (deliver
          (merge_locked f tenant_id entity_type entity_id s).1
          (merge_locked f tenant_id entity_type entity_id s).0
        ≡ some after)
      × IsValid after
      × ((k : Text)
          → get after.states k ≡ (
              if text_eq (key entity_type tenant_id entity_id) k
              then some (
                  f (
                    ensure_state
                      (held_state (get s.states (key entity_type tenant_id entity_id)))
                      tenant_id
                      entity_type
                      entity_id))
              else get s.states k))
unfolding deliver merge_locked
deliver-merge f tenant_id entity_type entity_id s v =
    let k = key entity_type tenant_id entity_id in
    let old = held_state (get s.states k) in
    let next = f (ensure_state old tenant_id entity_type entity_id) in
    let (cs, e, alike) =
      notify-some k s.watches (record { old = old; new = next }) s.channels
        (All-map _ _ s.watches (λ w h. is_open-not_closed w.channel s.channels h) v.opened) in
    (
      record s { states = put s.states k next; channels = cs },
      rw e,
      record {
        opened = All-map _ _ s.watches (λ w h. (alike.0 w.channel).0 ∙ h) v.opened;
        unshared = v.unshared;
        numbered = v.numbered;
        bounded = alike.1 v.bounded;
      },
      (λ j. get-put s.states k j next),
    )

pub is_open-close_ne :
    (id i : ℕ) (cs : List Channel) → i ≢ id → is_open i (close id cs) ≡ is_open i cs
unfolding is_open close
is_open-close_ne id i [] h = refl
is_open-close_ne id i (c ∷ cs) h = ground (arith, is_open-close_ne id i cs)

is_closed-close :
    (id : ℕ) (cs : List Channel) → is_open id cs ≡ true → is_closed id (close id cs) ≡ true
unfolding is_open is_closed close
is_closed-close id [] h = cc
is_closed-close id (c ∷ cs) h = ground (arith, is_closed-close id cs)

-- A merge whose notification comes only after a watch that it is for was cancelled panics: it sends
-- on the closed channel. So it is for every such watch of every store.
pub deliver-cancelled :
    (f : State → State) (tenant_id entity_type entity_id : Text) (s : MemoryStore) (w : MemoryWatch)
    → IsValid s
    → In w s.watches
    → is_watched (key entity_type tenant_id entity_id) w ≡ true
    → deliver
        (merge_locked f tenant_id entity_type entity_id s).1
        (cancel w.channel (merge_locked f tenant_id entity_type entity_id s).0)
      ≡ none
unfolding deliver merge_locked cancel
deliver-cancelled f tenant_id entity_type entity_id s w v m h =
    let closed =
      is_closed-close w.channel s.channels
        (All-In (λ (x : MemoryWatch). is_open x.channel s.channels ≡ true) s.watches v.opened m) in
    rw (notify-closed _ w s.watches _ (close w.channel s.channels) m h closed)
