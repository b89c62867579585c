-- ===== src/Throttle/Prune.antt =====
-- The janitor: what it deletes makes no difference to any verdict.
use thingsflow.Base.{
  ℕ, ◌*◌, ◌≤◌, ◌<◌, ◌≡◌, refl, true, not, Option, none, some, arith, Bool-cases, inl, inr,
}
use thingsflow.Base.Text.{Text}
use thingsflow.Base.Dict.{get, get-keep, filtered}
use thingsflow.Throttle.Keys.{IsMap}
use thingsflow.Throttle.{
  Config, Counter, Table, allow, allow_entry, past_window, before_cutoff, prune, int64_half,
}

-- A counter that the janitor deletes is past its window from then on.
past_of_cutoff :
    (cfg : Config) (now later first : ℕ)
    → 2 * cfg.window < int64_half
    → now ≤ later
    → before_cutoff cfg now first ≡ true
    → past_window cfg later first ≡ true
unfolding before_cutoff past_window
past_of_cutoff cfg now later first small order old = ground arith

allow_entry-filtered :
    (cfg : Config) (now later : ℕ) (e : Option Counter)
    → 2 * cfg.window < int64_half
    → now ≤ later
    → allow_entry cfg later (filtered (λ c. not (before_cutoff cfg now c.first_fail)) e)
      ≡ allow_entry cfg later e
unfolding allow_entry
allow_entry-filtered cfg now later none small order = refl
allow_entry-filtered cfg now later (some c) small order =
    elim (Bool-cases (before_cutoff cfg now c.first_fail)) [
      | inl old ↦ rw (old, past_of_cutoff cfg now later c.first_fail small order old)
      | inr young ↦ rw young
    ]

-- From a table that holds each key once, and with a window whose double fits an int64, the
-- janitor's pass changes no verdict, at its own time or later.
pub allow-prune :
    (cfg : Config) (now later : ℕ) (ip : Text) (t : Table)
    → IsMap t
    → 2 * cfg.window < int64_half
    → now ≤ later
    → allow cfg later ip (prune cfg now t) ≡ allow cfg later ip t
unfolding allow prune
allow-prune cfg now later ip t map small order =
    rw (get-keep (λ c. not (before_cutoff cfg now c.first_fail)) t ip map)
      (rw (allow_entry-filtered cfg now later (get t ip) small order))
