-- ===== src/Captain/Users/Generating.antt =====
-- What a request for proxy strings is answered.
use subnetwork_system_torchl.Prelude.{
  ◌⊎◌, ℕ, zero, suc, ◌+◌, ◌≡◌, subst, sym, Bool, ◌||◌, List, [], ◌∷◌, ◌++◌, Option, none, some,
  if◌then◌else◌, length, All, ap, ◌∙◌,
}
use subnetwork_system_torchl.Text.{
  Str, codes, str_eq, split, split-append, split-Free, itoa, itoa-Free, Free,
}
use subnetwork_system_torchl.Manager.Models.{Uuid}
use subnetwork_system_torchl.Captain.Replies.{Answer, rows, json, error, aborted, Response}
use subnetwork_system_torchl.Captain.Users.Proxies.{
  ProxyRequest, ProxyRow, ProxyArgs, host_of, format_proxy, config_of, proxies, rounds,
}

-- The three formats.
abbrev pub known : Str → Bool
known format =
    str_eq format (codes "ip:port:user:pass")
    || (str_eq format (codes "user:pass:ip:port") || str_eq format (codes "user:pass@ip:port"))

-- The arguments are just what the body asks for; a city or a state it leaves out is the empty text.
pub record IsAsked (req : ProxyRequest) (a : ProxyArgs) : Type 0 where
  pub user_id : req.user_id ≡ some a.user_id
  pub amount : req.amount ≡ some a.amount
  pub format : req.format ≡ some a.format
  pub pool_group : req.pool_group ≡ some a.pool_group
  pub proxy_type : req.proxy_type ≡ some a.proxy_type
  pub country_code : req.country_code ≡ some a.country_code
  pub is_sticky : req.is_sticky ≡ some a.is_sticky
  pub state : (req.state ≡ some a.state) ⊎ (req.state ≡ none) × (a.state ≡ [])
  pub city : (req.city ≡ some a.city) ⊎ (req.city ≡ none) × (a.city ≡ [])
  pub session_duration : req.session_duration ≡ a.session_duration

abbrev AskedBy : ProxyRequest → Option ProxyArgs → Type 0
AskedBy req none = Unit
AskedBy req (some a) = IsAsked req a

module _ (query : Str → Str → Uuid → Answer ProxyRow) (sessions : ℕ → Str) where
  -- The strings are those of what the body asks for and of the row that the query has found for it.
  abbrev pub IsAnswer : Option ProxyRequest → Response (List Str) → Type 0
  IsAnswer none (json status l) = ⊥
  IsAnswer (some req) (json status l) =
      (a : ProxyArgs) × (r : ProxyRow) × IsAsked req a
      × (status ≡ 200)
      × (query a.country_code (a.pool_group ++ (a.proxy_type ++ codes "%")) a.user_id ≡ rows r)
      × (l ≡ proxies sessions a r 0 (rounds a.amount))
      × (length l ≡ (if known a.format then rounds a.amount else 0))
  IsAnswer body (error status message) = status ≡ 500
  IsAnswer body aborted = ⊥

-- What a client that splits such a string at its colons finds.
abbrev pub Reads : (ℕ → Str) → ProxyArgs → ProxyRow → Str → Type 0
Reads sessions a r s =
    (i : ℕ) × (split b':' s
      ≡ host_of r ∷ itoa r.port ∷ r.username ∷ (r.password ++ config_of sessions a i) ∷ [])

module _ (sessions : ℕ → Str) (a : ProxyArgs) (r : ProxyRow)
    (format : a.format ≡ codes "ip:port:user:pass") (host : Free b':' (host_of r))
    (name : Free b':' r.username)
    (secret : (i : ℕ) → Free b':' (r.password ++ config_of sessions a i)) where
  format_proxy-Reads :
      (i : ℕ) → All (Reads sessions a r) (format_proxy a.format r (config_of sessions a i))
  unfolding format_proxy str_eq
  format_proxy-Reads i =
      let word = r.password ++ config_of sessions a i in
      let here : Reads sessions a r
          (host_of r ++ b':' ∷ (itoa r.port ++ b':' ∷ (r.username ++ b':' ∷ word))) =
        (
          i,
          split-append b':' (host_of r) (itoa r.port ++ b':' ∷ (r.username ++ b':' ∷ word)) host
              ∙ ap (◌∷◌ (host_of r)) (
                  split-append b':' (itoa r.port) (r.username ++ b':' ∷ word) (itoa-Free r.port)
                  ∙ ap (◌∷◌ (itoa r.port)) (
                      split-append b':' r.username word name
                      ∙ ap (◌∷◌ r.username) (split-Free b':' word (secret i)))),
        ) in
      subst (λ f. All (Reads sessions a r) (format_proxy f r (config_of sessions a i))) (sym format)
        (here, tt)

  All-append :
      (xs ys : List Str)
      → All (Reads sessions a r) xs
      → All (Reads sessions a r) ys
      → All (Reads sessions a r) (xs ++ ys)
  All-append [] ys h k = k
  All-append (x ∷ xs) ys h k = (h.0, All-append xs ys h.1 k)

  -- Every string of the format ip:port:user:pass, split at its colons, gives back the host, the port,
  -- the name, and the password with the tags behind it, if none of them has a colon.
  pub proxies-Reads : (i left : ℕ) → All (Reads sessions a r) (proxies sessions a r i left)
  unfolding proxies
  proxies-Reads i zero = tt
  proxies-Reads i (suc left) = All-append _ _ (format_proxy-Reads i) (proxies-Reads (i + 1) left)
