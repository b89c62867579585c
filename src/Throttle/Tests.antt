-- ===== src/Throttle/Tests.antt =====
-- Runs and instances of the login throttle.
use thingsflow.Base.{ℕ, ◌≡◌, ◌≢◌, ◌&&◌, refl, List, [], ◌∷◌, ◌++◌, true, false, arith, length, ltb}
use thingsflow.Base.Text.{Text, codes, text_eq, split}
use thingsflow.Base.Dict.{get, keys}
use thingsflow.Throttle.{
  Config, Counter, Table, Request, config, allow, record_fail, prune, past_window, client_ip,
  remote_host,
}
use thingsflow.Throttle.Window.{Failure, after, different, fingerprints, allow-after}
use thingsflow.Throttle.Keys.{denial_lasts}
use thingsflow.Throttle.Prune.{allow-prune}
use thingsflow.Throttle.Proxy.{client_ip_forged}

abbrev ip : Text
ip = codes "10.0.0.7"

abbrev other : Text
other = codes "10.0.0.8"

abbrev cfg : Config
cfg = record {
  max_fails = 2;
  window = 300;
  max_attempts = 60;
  trust_proxy = true;
  trusted_hops = 1;
}

-- With nothing set in the environment the defaults hold.
default_config : config (λ _. []) ≡ record {
  max_fails = 5;
  window = 300_000_000_000;
  max_attempts = 60;
  trust_proxy = false;
  trusted_hops = 1;
}
unfolding config text_eq
default_config = refl

abbrev failure : ℕ → Text → Failure
failure t fp = record { at = t; fingerprint = fp }

abbrev retries : List Failure
retries = failure 20 (codes "aa") ∷ failure 10 (codes "aa") ∷ []

ip_known : ip ≢ []
ip_known = λ e. cc e

-- Three failures with one credential leave one slot used.
allow-after_example : allow cfg 30 ip (after cfg ip [] (retries ++ failure 0 (codes "aa") ∷ [])) ≡ (
    ltb (different (fingerprints (retries ++ failure 0 (codes "aa") ∷ []))) 2
    && ltb (length (fingerprints (retries ++ failure 0 (codes "aa") ∷ []))) 60)
unfolding past_window get
allow-after_example =
    allow-after cfg ip [] (failure 0 (codes "aa")) ip_known tt (λ e. cc e) retries 30
      ((refl, λ e. cc e), ((refl, λ e. cc e), tt)) refl

abbrev full : Counter
full = record { distinct = codes "bb" ∷ codes "aa" ∷ []; attempts = 2; first_fail = 0 }

abbrev table : Table
table = (ip, full) ∷ []

denied : allow cfg 30 ip table ≡ false
unfolding allow text_eq
denied = refl

denial_lasts_example : allow cfg 40 ip (record_fail cfg 30 ip (codes "cc") table) ≡ false
unfolding get past_window text_eq
denial_lasts_example = denial_lasts cfg 30 40 ip (codes "cc") table {c = full} refl denied refl

allow-prune_example : allow cfg 900 ip (prune cfg 800 table) ≡ allow cfg 900 ip table
unfolding keys
allow-prune_example = allow-prune cfg 800 900 ip table ((λ h. h), tt) (omega arith) (omega arith)

abbrev request : Request
request = record {
  forwarded_for = codes " 203.0.113.9";
  real_ip = [];
  remote_addr = codes "[::1]:443";
}

reads_proxy : client_ip cfg request ≡ codes "203.0.113.9"
unfolding client_ip text_eq
reads_proxy = refl

reads_host : remote_host (codes "[::1]:443") ≡ codes "::1"
unfolding remote_host
reads_host = refl

client_ip_forged_example :
    client_ip cfg (record request { forwarded_for = codes "1.2.3.4" ++ 44 ∷ request.forwarded_for })
    ≡ client_ip cfg request
unfolding split
client_ip_forged_example = client_ip_forged cfg request (codes "1.2.3.4") (omega arith) (λ e. cc e)
