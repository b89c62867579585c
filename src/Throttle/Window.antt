-- ===== src/Throttle/Window.antt =====
-- `RecordFail` over one window: what the counter of a key holds after a history of failures.
use thingsflow.Base.{
  ℕ, suc, ◌+◌, ◌<◌, ◌≡◌, ◌≢◌, refl, List, [], ◌∷◌, ◌++◌, true, false, ◌&&◌, Option, none, some,
  arith, ltb, leb, if◌then◌else◌, length, All, Bool-cases, inl, inr,
}
use thingsflow.Base.Text.{Text, text_eq, text_eq_iff, contains, text_eq_ne}
use thingsflow.Base.Dict.{get}
use thingsflow.Throttle.Entry.{get-record_fail_self}
use thingsflow.Throttle.{
  Config, Counter, Table, past_window, allow, current, note, add, record_fail,
}

-- A failure: when it was recorded, and the fingerprint of its credentials.
pub record Failure : Type 0 where
  pub at : ℕ
  pub fingerprint : Text

-- The table after a history of failures of one key, the latest first.
unfoldable pub after : Config → Text → Table → List Failure → Table
after cfg ip t [] = t
after cfg ip t (f ∷ earlier) = record_fail cfg f.at ip f.fingerprint (after cfg ip t earlier)

pub fingerprints : List Failure → List Text
fingerprints [] = []
fingerprints (f ∷ fs) = f.fingerprint ∷ fingerprints fs

-- How many different texts a list holds.
unfoldable pub different : List Text → ℕ
different [] = 0
different (x ∷ xs) = if contains xs x then different xs else suc (different xs)

-- The counter, after fingerprints that were all known: `attempts` counts them, and `distinct`
-- counts the different ones up to the cap.
pub record Counts (cfg : Config) (first : ℕ) (fps : List Text) (c : Counter) : Type 0 where
  pub started : c.first_fail ≡ first
  pub attempted : c.attempts ≡ length fps
  pub counted :
      length c.distinct
      ≡ (if ltb (different fps) cfg.max_fails then different fps else cfg.max_fails)
  pub sound : (fp : Text) → contains c.distinct fp ≡ true → contains fps fp ≡ true
  pub full :
      different fps < cfg.max_fails
      → (fp : Text) → contains fps fp ≡ true
      → contains c.distinct fp ≡ true

module _ (cfg : Config) (fp : Text) (c : Counter) (known : text_eq fp [] ≡ false) where
  note_repeat : contains c.distinct fp ≡ true → note cfg fp c ≡ c
  unfolding note
  note_repeat seen = rw (known, seen)

  note_full :
      contains c.distinct fp ≡ false
      → leb cfg.max_fails (length c.distinct) ≡ true
      → note cfg fp c ≡ c
  unfolding note
  note_full fresh cap = rw (known, fresh, cap)

  note_fresh :
      contains c.distinct fp ≡ false
      → leb cfg.max_fails (length c.distinct) ≡ false
      → note cfg fp c ≡ record c { distinct = fp ∷ c.distinct }
  unfolding note add
  note_fresh fresh room = rw (known, fresh, room)

module _ (cfg : Config) (first : ℕ) (fps : List Text) (fp : Text) (c : Counter)
    (inv : Counts cfg first fps c) where
  Counts-repeat :
      contains c.distinct fp ≡ true
      → Counts cfg first (fp ∷ fps) (record c { attempts = c.attempts + 1 })
  unfolding different contains
  Counts-repeat seen = record {
    started = inv.started;
    attempted = omega (arith, inv.attempted);
    counted = rw (inv.sound fp seen) inv.counted;
    sound = λ x h. ground (arith, inv.sound x h);
    full = λ room x h. ground (
      arith,
      inv.sound fp seen,
      inv.full,
      inv.full (ground (arith, inv.sound fp seen)) x,
      text_eq_iff fp x,
    );
  }

  Counts-full :
      contains c.distinct fp ≡ false
      → leb cfg.max_fails (length c.distinct) ≡ true
      → Counts cfg first (fp ∷ fps) (record c { attempts = c.attempts + 1 })
  unfolding different contains
  Counts-full fresh cap = record {
    started = inv.started;
    attempted = omega (arith, inv.attempted);
    counted = ground (arith, inv.counted);
    sound = λ x h. ground (arith, inv.sound x h);
    full = λ room x h. absurd (ground (arith, inv.counted));
  }

  Counts-fresh :
      contains c.distinct fp ≡ false
      → leb cfg.max_fails (length c.distinct) ≡ false
      → Counts cfg first (fp ∷ fps) (record {
        distinct = fp ∷ c.distinct;
        attempts = c.attempts + 1;
        first_fail = c.first_fail;
      })
  unfolding different contains
  Counts-fresh fresh cap = record {
    started = inv.started;
    attempted = omega (arith, inv.attempted);
    counted = ground (arith, inv.counted, inv.full (ground (arith, inv.counted)) fp);
    sound = λ x h. ground (arith, inv.sound x);
    full = λ room x h. ground (arith, inv.full (ground (arith, inv.counted)) x);
  }

note-Counts :
    (cfg : Config) (first : ℕ) (fps : List Text) (fp : Text) (c : Counter)
    → text_eq fp [] ≡ false
    → Counts cfg first fps c
    → Counts cfg first (fp ∷ fps) (note cfg fp (record c { attempts = c.attempts + 1 }))
note-Counts cfg first fps fp c known inv =
    let c' = record c { attempts = c.attempts + 1 } in
    elim (Bool-cases (contains c.distinct fp)) [
      | inl seen ↦ rw (note_repeat cfg fp c' known seen) (Counts-repeat cfg first fps fp c inv seen)
      | inr fresh ↦ elim (Bool-cases (leb cfg.max_fails (length c.distinct))) [
        | inl cap ↦
            rw (note_full cfg fp c' known fresh cap) (Counts-full cfg first fps fp c inv fresh cap)
        | inr room ↦
            rw (note_fresh cfg fp c' known fresh room)
              (Counts-fresh cfg first fps fp c inv fresh room)
      ]
    ]

abbrev pub fresh_counter : ℕ → Counter
fresh_counter now = record { distinct = []; attempts = 0; first_fail = now }

-- No counter of the key is inside its window.
abbrev pub Opens : Config → ℕ → Option Counter → Type 0
Opens cfg now none = Unit
Opens cfg now (some c) = past_window cfg now c.first_fail ≡ true

-- The failure falls into the window that opened at `first`, with a known fingerprint.
abbrev pub Within : Config → ℕ → Failure → Type 0
Within cfg first f = (past_window cfg f.at first ≡ false) × (f.fingerprint ≢ [])

current-Opens :
    (cfg : Config) (now : ℕ) (e : Option Counter)
    → Opens cfg now e
    → current cfg now e ≡ fresh_counter now
unfolding current
current-Opens cfg now none h = refl
current-Opens cfg now (some c) h = rw h

current_within :
    (cfg : Config) (now first : ℕ) (c : Counter)
    → c.first_fail ≡ first
    → past_window cfg now first ≡ false
    → current cfg now (some c) ≡ c
unfolding current
current_within cfg now first c e h = rw (e, h)

Counts-fresh_counter : (cfg : Config) (first : ℕ) → Counts cfg first [] (fresh_counter first)
unfolding different contains
Counts-fresh_counter cfg first = record {
  started = refl;
  attempted = refl;
  counted = ground arith;
  sound = λ x h. h;
  full = λ room x h. h;
}

module _ (cfg : Config) (ip : Text) (t : Table) (f₀ : Failure) (some_ip : ip ≢ [])
    (opens : Opens cfg f₀.at (get t ip)) (known : f₀.fingerprint ≢ []) where
  after-Counts :
      (fs : List Failure)
      → All (Within cfg f₀.at) fs
      → (c : Counter) × (get (after cfg ip t (fs ++ f₀ ∷ [])) ip ≡ some c)
        × Counts cfg f₀.at (fingerprints (fs ++ f₀ ∷ [])) c
  unfolding after fingerprints
  after-Counts [] h = (
    note cfg f₀.fingerprint (record (fresh_counter f₀.at) { attempts = 0 + 1 }),
    rw (
      get-record_fail_self cfg f₀.at ip f₀.fingerprint t some_ip,
      current-Opens cfg f₀.at (get t ip) opens,
    ),
    note-Counts cfg f₀.at [] f₀.fingerprint (fresh_counter f₀.at) (text_eq_ne _ [] known)
        (Counts-fresh_counter cfg f₀.at),
  )
  after-Counts (f ∷ fs) h =
      let (c, e, inv) = after-Counts fs h.1 in
      (
        note cfg f.fingerprint (record c { attempts = c.attempts + 1 }),
        rw (
          get-record_fail_self cfg f.at ip f.fingerprint (after cfg ip t (fs ++ f₀ ∷ [])) some_ip,
          e,
          current_within cfg f.at f₀.at c inv.started h.0.0,
        ),
        note-Counts cfg f₀.at (fingerprints (fs ++ f₀ ∷ [])) f.fingerprint c (text_eq_ne _ [] h.0.1)
            inv,
      )

  -- Take a key that is not empty and has no counter inside its window, and any failures with
  -- known fingerprints, the first of which opens a window into which the others fall. Until that
  -- window ends, `allow` holds exactly while fewer different fingerprints than `max_fails`
  -- and fewer failures than `max_attempts` were recorded.
  pub allow-after :
      (fs : List Failure) (now : ℕ)
      → All (Within cfg f₀.at) fs
      → past_window cfg now f₀.at ≡ false
      → let history = fs ++ f₀ ∷ [] in
        allow cfg now ip (after cfg ip t history) ≡ (
          ltb (different (fingerprints history)) cfg.max_fails
          && ltb (length (fingerprints history)) cfg.max_attempts)
  unfolding allow
  allow-after fs now h open_ =
      let (c, e, inv) = after-Counts fs h in
      rw (text_eq_ne ip [] some_ip, e) (ground (arith, inv.counted, inv.attempted, inv.started))
