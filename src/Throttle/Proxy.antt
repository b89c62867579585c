-- ===== src/Throttle/Proxy.antt =====
-- `ClientIP` behind trusted proxies.
use thingsflow.Base.{
  ◌-◌, ◌≤◌, ◌<◌, ◌≡◌, ◌≢◌, [], ◌∷◌, ◌++◌, false, none, arith, inl, inr, ◌⊎◌, length, length-append,
  get_elem?-append,
}
use thingsflow.Base.Text.{Text, text_eq_ne, split, split-append}
use thingsflow.Throttle.{Config, Request, trusted_part, remote_host, client_ip}

trusted_part-append :
    (cfg : Config) (forged ours : Text)
    → cfg.trusted_hops ≤ length (split 44 ours)
    → trusted_part cfg (forged ++ 44 ∷ ours) ≡ trusted_part cfg ours
unfolding trusted_part
trusted_part-append cfg forged ours enough =
    let ps = split 44 forged in
    let qs = split 44 ours in
    rw (split-append 44 forged ours) (
      ground (
        arith,
        length-append ps qs,
        get_elem?-append ps qs (length (ps ++ qs) - cfg.trusted_hops)
            (length qs - cfg.trusted_hops),
      ))

trusted_part_short :
    (cfg : Config) (xff : Text)
    → length (split 44 xff) < cfg.trusted_hops
    → trusted_part cfg xff ≡ none
unfolding trusted_part
trusted_part_short cfg xff h = ground arith

append-ne-nil : (forged ours : Text) → forged ++ 44 ∷ ours ≢ []
append-ne-nil [] ours = λ e. cc
append-ne-nil (c ∷ forged) ours = λ e. cc

-- Take a header `X-Forwarded-For` that holds as many elements as there are trusted proxies. The
-- address that is read does not change when a client puts any text and a comma in front of it.
pub client_ip_forged :
    (cfg : Config) (r : Request) (forged : Text)
    → cfg.trusted_hops ≤ length (split 44 r.forwarded_for)
    → r.forwarded_for ≢ []
    → client_ip cfg (record r { forwarded_for = forged ++ 44 ∷ r.forwarded_for }) ≡ client_ip cfg r
unfolding client_ip
client_ip_forged cfg r forged enough given = rw (
  text_eq_ne (forged ++ 44 ∷ r.forwarded_for) [] (append-ne-nil forged r.forwarded_for),
  text_eq_ne r.forwarded_for [] given,
  trusted_part-append cfg forged r.forwarded_for enough,
)

-- Neither header is read where no proxy is trusted, nor where `X-Forwarded-For` is given with
-- fewer elements than trusted proxies: the address is then the connection's.
pub client_ip_unforgeable :
    (cfg : Config) (r : Request)
    → (cfg.trust_proxy ≡ false)
      ⊎ ((r.forwarded_for ≢ []) × (length (split 44 r.forwarded_for) < cfg.trusted_hops))
    → client_ip cfg r ≡ remote_host r.remote_addr
unfolding client_ip
client_ip_unforgeable cfg r (inl off) = rw off
client_ip_unforgeable cfg r (inr (given, short)) =
    rw (text_eq_ne r.forwarded_for [] given, trusted_part_short cfg r.forwarded_for short)
      (ground arith)
