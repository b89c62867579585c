-- ===== src/TwinStore/Memory/Valid.antt =====
-- Beginning and ending a watch of the `MemoryStore` of twinstore/store.go.
use thingsflow.TwinStore.Memory.Merged.{Shares, Unshared, IsValid, is_open-close_ne}
use thingsflow.Base.{
  ℕ, ◌<◌, List, [], ◌∷◌, ◌++◌, ◌≡◌, ◌≢◌, subst, ◌∙◌, true, false, arith, Bool-cases, inl, inr, All,
  All-map, ◌==◌, ==_iff, ◌⊎◌,
}
use thingsflow.Base.Collect.{All-append}
use thingsflow.Base.Text.{Text}
use thingsflow.TwinStore.Memory.{Channel, MemoryWatch, MemoryStore, watch, unlisted, close, cancel}
use thingsflow.TwinStore.Memory.Watches.{is_open, Bounded}

Shares-append :
    (w v : MemoryWatch) (ws : List MemoryWatch)
    → Shares w (ws ++ v ∷ [])
    → Shares w ws ⊎ (v.channel ≡ w.channel)
Shares-append w v [] h = ground arith
Shares-append w v (x ∷ ws) h = ground (arith, Shares-append w v ws)

Unshared-append :
    (ws : List MemoryWatch) (v : MemoryWatch)
    → All (λ w. w.channel < v.channel) ws
    → Unshared ws
    → Unshared (ws ++ v ∷ [])
Unshared-append [] v h u = ((λ x. x), tt)
Unshared-append (w ∷ ws) v h u = (
  (λ q. elim (Shares-append w v ws q) [ inl r ↦ u.0 r | inr e ↦ absurd (omega (arith, e, h.0)) ]),
  Unshared-append ws v h.1 u.1,
)

is_open-new :
    (n i : ℕ) (cs : List Channel)
    → i < n
    → is_open i cs ≡ true
    → is_open i (record { id = n; queue = []; closed = false } ∷ cs) ≡ true
unfolding is_open
is_open-new n i cs h o = ground arith

unlisted-All :
    (P : MemoryWatch → Type 0) (id : ℕ) (ws : List MemoryWatch) → All P ws → All P (unlisted id ws)
unfolding unlisted
unlisted-All P id [] h = tt
unlisted-All P id (w ∷ ws) h = elim (Bool-cases (w.channel == id)) [
  | inl e ↦ rw e h.1
  | inr e ↦ rw e (h.0, unlisted-All P id ws h.1)
]

Shares-unlisted :
    (id : ℕ) (w : MemoryWatch) (ws : List MemoryWatch) → Shares w (unlisted id ws) → Shares w ws
unfolding unlisted
Shares-unlisted id w [] h = h
Shares-unlisted id w (v ∷ ws) h = ground (arith, Shares-unlisted id w ws)

unlisted-Unshared : (id : ℕ) (ws : List MemoryWatch) → Unshared ws → Unshared (unlisted id ws)
unfolding unlisted
unlisted-Unshared id [] u = tt
unlisted-Unshared id (w ∷ ws) u = elim (Bool-cases (w.channel == id)) [
  | inl e ↦ rw e u.1
  | inr e ↦ rw e ((λ h. u.0 (Shares-unlisted id w ws h)), unlisted-Unshared id ws u.1)
]

not_shared :
    (w : MemoryWatch) (ws : List MemoryWatch) → ¬ Shares w ws → All (λ v. v.channel ≢ w.channel) ws
not_shared w [] h = tt
not_shared w (v ∷ ws) h = ((λ e. h (inl e)), not_shared w ws (λ q. h (inr q)))

-- The watches that stay have other channels.
unlisted_ne :
    (id : ℕ) (ws : List MemoryWatch) → Unshared ws → All (λ w. w.channel ≢ id) (unlisted id ws)
unfolding unlisted
unlisted_ne id [] u = tt
unlisted_ne id (w ∷ ws) u = elim (Bool-cases (w.channel == id)) [
  | inl e ↦
      let same : w.channel ≡ id = (==_iff w.channel id).0 e in
      rw e (subst (λ i. All (λ v. v.channel ≢ i) ws) same (not_shared w ws u.0))
  | inr e ↦ rw e ((λ p. cc (e, (==_iff w.channel id).1 p)), unlisted_ne id ws u.1)
]

opened_close :
    (id : ℕ) (cs : List Channel) (ws : List MemoryWatch)
    → All (λ w. w.channel ≢ id) ws
    → All (λ w. is_open w.channel cs ≡ true) ws
    → All (λ w. is_open w.channel (close id cs) ≡ true) ws
opened_close id cs [] h o = tt
opened_close id cs (w ∷ ws) h o =
    (is_open-close_ne id w.channel cs h.0 ∙ o.0, opened_close id cs ws h.1 o.1)

Bounded-close : (id : ℕ) (cs : List Channel) → Bounded cs → Bounded (close id cs)
unfolding close
Bounded-close id [] h = tt
Bounded-close id (c ∷ cs) h = ground (arith, Bounded-close id cs h.1)

opened_new :
    (n : ℕ) (cs : List Channel) (ws : List MemoryWatch)
    → All (λ w. w.channel < n) ws
    → All (λ w. is_open w.channel cs ≡ true) ws
    → All (λ w. is_open w.channel (record { id = n; queue = []; closed = false } ∷ cs) ≡ true) ws
opened_new n cs [] h o = tt
opened_new n cs (w ∷ ws) h o = (is_open-new n w.channel cs h.0 o.0, opened_new n cs ws h.1 o.1)

-- Beginning and ending a watch keep the listed watches on open channels of their own, within their
-- buffers.
pub watches-IsValid :
    (prefix : Text) (id : ℕ) (s : MemoryStore)
    → IsValid s
    → IsValid (watch prefix s) × IsValid (cancel id s)
unfolding watch cancel
watches-IsValid prefix id s v = (
  record {
    opened =
        All-append _ s.watches _ (opened_new s.made s.channels s.watches v.numbered v.opened)
          (unfold is_open in ground arith, tt);
    unshared = Unshared-append s.watches _ v.numbered v.unshared;
    numbered =
        All-append _ s.watches _ (All-map _ _ s.watches (λ w h. omega (arith, h)) v.numbered)
          (omega arith, tt);
    bounded = (omega arith, v.bounded);
  },
  record {
    opened =
        opened_close id s.channels (unlisted id s.watches) (unlisted_ne id s.watches v.unshared)
          (unlisted-All _ id s.watches v.opened);
    unshared = unlisted-Unshared id s.watches v.unshared;
    numbered = unlisted-All _ id s.watches v.numbered;
    bounded = Bounded-close id s.channels v.bounded;
  },
)
