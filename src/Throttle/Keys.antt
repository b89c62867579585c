-- ===== src/Throttle/Keys.antt =====
-- The keys of the table: a counter belongs to one key, and a success removes it.
use thingsflow.Base.{
  ℕ, ◌+◌, ◌≤◌, [], ◌≡◌, ◌≢◌, true, false, some, arith, NoDup, Bool-cases, length, inl, inr, ◌⊎◌,
}
use thingsflow.Base.Text.{Text, text_eq, text_eq_iff, text_eq_refl}
use thingsflow.Base.Dict.{get, keys, get-remove, NoDup-put, NoDup-remove, NoDup-keep}
use thingsflow.Throttle.Entry.{
  get-record_fail_self, get-record_fail_ne, length-note, attempts-note, first_fail-note,
}
use thingsflow.Throttle.{
  Config, Counter, Table, allow, allow_entry, past_window, current, record_fail, record_success,
  prune,
}

-- A Go map holds each key once.
abbrev pub IsMap : Table → Type 0
IsMap t = NoDup (keys t)

-- Recording a failure, recording a success and the janitor's pass each keep every key at most
-- once in the table.
pub operations-IsMap :
    (cfg : Config) (now : ℕ) (ip fp : Text) (t : Table)
    → IsMap t
    → IsMap (record_fail cfg now ip fp t) × IsMap (record_success ip t) × IsMap (prune cfg now t)
unfolding record_fail record_success prune
operations-IsMap cfg now ip fp t h = (
  elim (Bool-cases (text_eq ip [])) [ inl e ↦ rw e h | inr e ↦ rw e (NoDup-put t ip _ h) ],
  elim (Bool-cases (text_eq ip [])) [ inl e ↦ rw e h | inr e ↦ rw e (NoDup-remove t ip h) ],
  NoDup-keep _ t h,
)

-- What is recorded for one key, failure or success, changes the verdict on no other key.
pub allow-other :
    (cfg : Config) (at now : ℕ) (ip fp other : Text) (t : Table)
    → ip ≢ other
    → (allow cfg now other (record_fail cfg at ip fp t) ≡ allow cfg now other t)
      × (allow cfg now other (record_success ip t) ≡ allow cfg now other t)
unfolding allow record_success
allow-other cfg at now ip fp other t h = (
  rw (get-record_fail_ne cfg at ip fp other t h),
  ground (arith, get-remove t ip other, text_eq_iff ip other),
)

-- Right after a success the key is allowed, whatever was recorded before and whenever it is asked.
pub allow-record_success :
    (cfg : Config) (now : ℕ) (ip : Text) (t : Table) → allow cfg now ip (record_success ip t) ≡ true
unfolding allow record_success allow_entry
allow-record_success cfg now ip t = ground (arith, get-remove t ip ip, text_eq_refl ip)

-- A denied key is not empty, its counter goes on, and a cap is reached.
denied_entry :
    (cfg : Config) (now : ℕ) (ip : Text) (t : Table) {c : Counter}
    → get t ip ≡ some c
    → allow cfg now ip t ≡ false
    → (ip ≢ [])
      × (current cfg now (some c) ≡ c)
      × ((cfg.max_fails ≤ length c.distinct) ⊎ (cfg.max_attempts ≤ c.attempts))
unfolding allow current
denied_entry cfg now ip t {c} e denied = (
  (λ p. ground (arith, text_eq_iff ip [])),
  ground (arith, text_eq_iff ip []),
  ground (arith, text_eq_iff ip []),
)

-- A key that is denied stays denied until its window ends: a further failure, whatever its
-- fingerprint, does not lift the denial.
pub denial_lasts :
    (cfg : Config) (now later : ℕ) (ip fp : Text) (t : Table) {c : Counter}
    → get t ip ≡ some c
    → allow cfg now ip t ≡ false
    → past_window cfg later c.first_fail ≡ false
    → allow cfg later ip (record_fail cfg now ip fp t) ≡ false
unfolding allow
denial_lasts cfg now later ip fp t {c} e denied open_ =
    let (some_ip, inside, capped) = denied_entry cfg now ip t e denied in
    rw (get-record_fail_self cfg now ip fp t some_ip, e, inside)
      (ground (
        arith,
        length-note cfg fp (record c { attempts = c.attempts + 1 }),
        attempts-note cfg fp (record c { attempts = c.attempts + 1 }),
        first_fail-note cfg fp (record c { attempts = c.attempts + 1 }),
        capped,
      ))
