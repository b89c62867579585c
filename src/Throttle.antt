-- ===== src/Throttle.antt =====
-- flow-core/internal/throttle/throttle.go: the limiter of login attempts for each client address.
-- Times are nanoseconds; a `time.Duration` is the bit pattern of an int64.
mod Entry
pub mod Window
pub mod Keys
pub mod Prune
pub mod Proxy
mod Tests
use thingsflow.Base.{
  ℕ, suc, ◌+◌, ◌-◌, ◌*◌, ◌%◌, ◌^◌, List, [], ◌∷◌, Bool, true, false, not, ◌&&◌, Option, none, some,
  ltb, leb, ◌==◌, if◌then◌else◌, length, get_elem?,
}
use thingsflow.Base.Text.{Text, codes, text_eq, contains, split, trim_space}
use thingsflow.Base.Dict.{Dict, get, put, remove, keep}
use thingsflow.Base.Strconv.{atoi_positive, itoa, split_host}

-- The fields of `counter`; the set of fingerprints is a list without repeats.
pub record Counter : Type 0 where
  pub distinct : List Text
  pub attempts : ℕ
  pub first_fail : ℕ

-- The map `attempts.m`.
abbrev pub Table : Type 0
Table = Dict Counter

-- The process environment, as `os.Getenv` reads it: an unset variable is empty.
abbrev pub Env : Type 0
Env = Text → Text

pub record Config : Type 0 where
  pub max_fails : ℕ
  pub window : ℕ
  pub max_attempts : ℕ
  pub trust_proxy : Bool
  pub trusted_hops : ℕ

-- The number of patterns of an int64, and the first that is negative.
abbrev pub int64_mod : ℕ
int64_mod = 2 ^ 64

abbrev pub int64_half : ℕ
int64_half = 2 ^ 63

unfoldable pub env_or : Env → Text → Text → Text
env_or env key def = let v = env key in if text_eq v [] then def else v

unfoldable pub or_default : Option ℕ → ℕ → ℕ
or_default none d = d
or_default (some v) d = v

-- An environment variable that has to be a positive number.
unfoldable pub positive_env : Env → Text → Text → ℕ → ℕ
unfolding env_or or_default atoi_positive
positive_env env key def d = or_default (atoi_positive (env_or env key def)) d

-- `config`, `maxAttempts`, `trustedHops` and the test of `ClientIP` on the environment.
unfoldable pub config : Env → Config
unfolding positive_env
config env = record {
  max_fails = positive_env env (codes "LOGIN_THROTTLE_MAX_FAILS") (codes "5") 5;
  window =
      positive_env env (codes "LOGIN_THROTTLE_WINDOW_SECONDS") (codes "300") 300
      * 1_000_000_000
      % int64_mod;
  max_attempts = positive_env env (codes "LOGIN_THROTTLE_MAX_ATTEMPTS") (codes "60") 60;
  trust_proxy = not (text_eq (env_or env (codes "LOGIN_THROTTLE_TRUST_PROXY") []) []);
  trusted_hops = positive_env env (codes "LOGIN_THROTTLE_TRUSTED_HOPS") (codes "1") 1;
}

-- `time.Since(first) > window`: any time that has passed is more than a negative window.
unfoldable pub past_window : Config → ℕ → ℕ → Bool
past_window cfg now first = if ltb cfg.window int64_half then ltb cfg.window (now - first) else true

-- `first.Before(now.Add(-2 * window))`, the product wrapped to an int64.
unfoldable pub before_cutoff : Config → ℕ → ℕ → Bool
before_cutoff cfg now first =
    let shift = (int64_mod - 2 * cfg.window % int64_mod) % int64_mod in
    if ltb shift int64_half then ltb first (now + shift) else ltb (first + (int64_mod - shift)) now

-- One pass of `janitor`, which `pruneExpiredForTest` also makes.
unfoldable pub prune : Config → ℕ → Table → Table
unfolding before_cutoff keep
prune cfg now t = keep (λ c. not (before_cutoff cfg now c.first_fail)) t

-- The verdict of `Allow` on the entry of the key.
unfoldable pub allow_entry : Config → ℕ → Option Counter → Bool
unfolding past_window
allow_entry cfg now none = true
allow_entry cfg now (some c) =
    if past_window cfg now c.first_fail
    then true
    else ltb (length c.distinct) cfg.max_fails && ltb c.attempts cfg.max_attempts

unfoldable pub allow : Config → ℕ → Text → Table → Bool
unfolding allow_entry get
allow cfg now ip t = if text_eq ip [] then true else allow_entry cfg now (get t ip)

-- The counter that `RecordFail` goes on with: a fresh one if there is none in the window.
unfoldable pub current : Config → ℕ → Option Counter → Counter
unfolding past_window
current cfg now none = record { distinct = []; attempts = 0; first_fail = now }
current cfg now (some c) =
    if past_window cfg now c.first_fail
    then record { distinct = []; attempts = 0; first_fail = now }
    else c

-- `set[key] = struct{}{}`
unfoldable pub add : Text → List Text → List Text
unfolding contains
add x xs = if contains xs x then xs else x ∷ xs

-- `RecordFail` behind `c.attempts++`.
unfoldable pub note : Config → Text → Counter → Counter
unfolding add itoa
note cfg fingerprint c =
    if text_eq fingerprint []
    then record c { distinct = add (itoa c.attempts) c.distinct }
    else if contains c.distinct fingerprint
    then c
    else if leb cfg.max_fails (length c.distinct)
    then c
    else record c { distinct = add fingerprint c.distinct }

unfoldable pub record_fail : Config → ℕ → Text → Text → Table → Table
unfolding current note get put
record_fail cfg now ip fingerprint t =
    if text_eq ip []
    then t
    else (let c = current cfg now (get t ip) in
        put t ip (note cfg fingerprint (record c { attempts = c.attempts + 1 })))

unfoldable pub record_success : Text → Table → Table
unfolding remove
record_success ip t = if text_eq ip [] then t else remove t ip

-- What `ClientIP` reads of a request; an absent header is empty.
pub record Request : Type 0 where
  pub forwarded_for : Text
  pub real_ip : Text
  pub remote_addr : Text

unfoldable pub remote_host : Text → Text
unfolding split_host
remote_host addr = elim (split_host addr) [ none ↦ addr | some host ↦ host ]

-- A trimmed element, if anything is left of it.
unfoldable pub usable : Option Text → Option Text
unfolding trim_space
usable none = none
usable (some part) = let ip = trim_space part in if text_eq ip [] then none else some ip

-- The element of `X-Forwarded-For` that the outermost trusted proxy wrote.
unfoldable pub trusted_part : Config → Text → Option Text
unfolding split usable
trusted_part cfg xff =
    let parts = split 44 xff in
    if ltb (length parts) cfg.trusted_hops
    then none
    else usable (get_elem? parts (length parts - cfg.trusted_hops))

unfoldable pub client_ip : Config → Request → Text
unfolding trusted_part remote_host
client_ip cfg r =
    if cfg.trust_proxy
    then if text_eq r.forwarded_for []
      then if text_eq r.real_ip [] then remote_host r.remote_addr else trim_space r.real_ip
      else elim (trusted_part cfg r.forwarded_for) [
        | none ↦ remote_host r.remote_addr
        | some ip ↦ ip
      ]
    else remote_host r.remote_addr
