-- ===== src/Throttle/Entry.antt =====
-- The entry of a key after `RecordFail`, for the proofs of the other modules.
use thingsflow.Base.{ℕ, ◌+◌, ◌≤◌, ◌≡◌, ◌≢◌, [], some, arith, Bool-cases, length, inl, inr}
use thingsflow.Base.Text.{Text, text_eq, text_eq_ne, text_eq_refl}
use thingsflow.Base.Dict.{get, get-put}
use thingsflow.Throttle.{Config, Counter, Table, current, note, record_fail}

pub get-record_fail_self :
    (cfg : Config) (now : ℕ) (ip fp : Text) (t : Table)
    → ip ≢ []
    → get (record_fail cfg now ip fp t) ip
      ≡ some (
          note cfg fp (record (current cfg now (get t ip)) {
            attempts = (current cfg now (get t ip)).attempts + 1;
          }))
unfolding record_fail
get-record_fail_self cfg now ip fp t h = rw (text_eq_ne ip [] h) (simp (get-put, text_eq_refl))

pub get-record_fail_ne :
    (cfg : Config) (now : ℕ) (ip fp other : Text) (t : Table)
    → ip ≢ other
    → get (record_fail cfg now ip fp t) other ≡ get t other
unfolding record_fail
get-record_fail_ne cfg now ip fp other t h = elim (Bool-cases (text_eq ip [])) [
  | inl e ↦ rw e
  | inr e ↦ rw e (rw (get-put, text_eq_ne ip other h))
]

pub length-note :
    (cfg : Config) (fp : Text) (c : Counter) → length c.distinct ≤ length (note cfg fp c).distinct
unfolding note
length-note cfg fp c = ground arith

pub attempts-note : (cfg : Config) (fp : Text) (c : Counter) → (note cfg fp c).attempts ≡ c.attempts
unfolding note
attempts-note cfg fp c = ground arith

pub first_fail-note :
    (cfg : Config) (fp : Text) (c : Counter) → (note cfg fp c).first_fail ≡ c.first_fail
unfolding note
first_fail-note cfg fp c = ground arith
