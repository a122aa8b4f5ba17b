-- ===== src/Captain/Users/Proxies.antt =====
-- GenerateProxyString of captain/internal/server/service/user_service.go and of user_handler.go.
use subnetwork_system_torchl.Prelude.{
  ℕ, ◌||◌, zero, suc, ◌+◌, Bool, true, false, List, [], ◌∷◌, ◌++◌, Option, none, some,
  if◌then◌else◌, ℤ, pos, leb_ℤ, negsuc,
}
use subnetwork_system_torchl.Text.{Str, codes, str_eq, itoa}
use subnetwork_system_torchl.Manager.Models.{Uuid}
use subnetwork_system_torchl.Tags.{generate_proxy_string}
use subnetwork_system_torchl.Captain.Replies.{
  Answer, rows, no_rows, broken, Ret, done, failed, Response, error, aborted, ok_200, internal_500,
  respond,
}

-- The pointers of a decoded body; none is nil.
pub record ProxyRequest : Type 0 where
  pub user_id : Option Uuid
  pub amount : Option ℤ
  pub format : Option Str
  pub pool_group : Option Str
  pub proxy_type : Option Str
  pub country_code : Option Str
  pub state : Option Str
  pub city : Option Str
  pub is_sticky : Option Bool
  pub session_duration : Option ℤ

-- What the query finds: the user's credentials and the address of the pool.
pub record ProxyRow : Type 0 where
  pub username : Str
  pub password : Str
  pub subdomain : Str
  pub port : ℤ

-- The request with its pointers dereferenced; a nil city or state is empty.
pub record ProxyArgs : Type 0 where
  pub user_id : Uuid
  pub amount : ℤ
  pub format : Str
  pub pool_group : Str
  pub proxy_type : Str
  pub country_code : Str
  pub state : Str
  pub city : Str
  pub is_sticky : Bool
  pub session_duration : Option ℤ

abbrev pub host_of : ProxyRow → Str
host_of r = r.subdomain ++ codes ".trytorchlabs.com"

-- The switch over *req.Format; another format adds nothing.
unfoldable pub format_proxy : Str → ProxyRow → Str → List Str
format_proxy format r config =
    if str_eq format (codes "ip:port:user:pass")
    then (host_of r ++ b':' ∷ (itoa r.port ++ b':' ∷ (r.username ++ b':' ∷ (r.password ++ config))))
      ∷ []
    else if str_eq format (codes "user:pass:ip:port")
    then (r.username ++ b':' ∷ ((r.password ++ config) ++ b':' ∷ (host_of r ++ b':' ∷ itoa r.port)))
      ∷ []
    else if str_eq format (codes "user:pass@ip:port")
    then (r.username ++ b':' ∷ ((r.password ++ config) ++ b'@' ∷ (host_of r ++ b':' ∷ itoa r.port)))
      ∷ []
    else []

-- The tags of the string with number `i`; `sessions` are the random texts.
unfoldable pub config_of : (ℕ → Str) → ProxyArgs → ℕ → Str
config_of sessions a i =
    generate_proxy_string a.pool_group a.country_code a.is_sticky a.city a.state a.session_duration
      (sessions i)

-- The rounds of the loop that are left, from number `i` on.
unfoldable pub proxies : (ℕ → Str) → ProxyArgs → ProxyRow → ℕ → ℕ → List Str
unfolding format_proxy config_of
proxies sessions a r i zero = []
proxies sessions a r i (suc left) =
    format_proxy a.format r (config_of sessions a i) ++ proxies sessions a r (i + 1) left

abbrev pub rounds : ℤ → ℕ
rounds (pos n) = n
rounds (negsuc n) = 0

unfoldable pub strings : (ℕ → Str) → ProxyArgs → Answer ProxyRow → Ret (List Str)
unfolding proxies
strings sessions a (rows r) = done (proxies sessions a r 0 (rounds a.amount)) ok_200 []
strings sessions a no_rows = failed internal_500 (codes "server error")
strings sessions a broken = failed internal_500 (codes "server error")

-- The service, on the dereferenced request; the query gets the country, the tag and the user.
unfoldable pub generate_strings :
    (Str → Str → Uuid → Answer ProxyRow) → (ℕ → Str) → ProxyArgs → Ret (List Str)
unfolding strings
generate_strings query sessions a =
    strings sessions a
      (query a.country_code (a.pool_group ++ (a.proxy_type ++ codes "%")) a.user_id)

-- The first check that a body fails, in the handler's order; the duration is tested of a sticky
-- request only.
sticky_bad : Option Bool → Option ℤ → Bool
sticky_bad (some true) (some d) = leb_ℤ d (pos 0)
sticky_bad _ _ = false

abbrev pub lacks : Option Str → Bool
lacks none = true
lacks (some s) = str_eq s []

abbrev pub missing {ℓ} : {A : Type ℓ} → Option A → Bool
missing none = true
missing (some a) = false

unfoldable pub generate_check : ProxyRequest → Bool
unfolding sticky_bad
generate_check req =
    missing req.user_id
    || (missing req.amount
        || (missing req.is_sticky
            || (sticky_bad req.is_sticky req.session_duration
                || (lacks req.country_code
                    || (lacks req.pool_group || (missing req.proxy_type || lacks req.format))))))

abbrev pub text_in : Option Str → Str
text_in none = []
text_in (some s) = s

-- The dereferences of the service; none is a nil pointer.
unfoldable pub dereferenced :
    ProxyRequest
    → Option Uuid
    → Option ℤ
    → Option Bool
    → Option Str
    → Option Str
    → Option Str
    → Option Str
    → Option ProxyArgs
dereferenced req (some user_id) (some amount) (some sticky) (some country) (some group) (some type)
      (some format) =
    some (record {
      user_id = user_id;
      amount = amount;
      format = format;
      pool_group = group;
      proxy_type = type;
      country_code = country;
      state = text_in req.state;
      city = text_in req.city;
      is_sticky = sticky;
      session_duration = req.session_duration;
    })
dereferenced req _ _ _ _ _ _ _ = none

unfoldable pub args_of : ProxyRequest → Option ProxyArgs
unfolding dereferenced
args_of req =
    dereferenced req req.user_id req.amount req.is_sticky req.country_code req.pool_group
      req.proxy_type req.format

module _ (query : Str → Str → Uuid → Answer ProxyRow) (sessions : ℕ → Str) where
  unfoldable pub generated : Option ProxyArgs → Response (List Str)
  generated none = aborted
  generated (some a) = respond ok_200 (generate_strings query sessions a)

  -- GenerateproxyString of the handler; all its refusals say "server error" with 500.
  unfoldable pub generate_handler : Option ProxyRequest → Response (List Str)
  unfolding generated
  generate_handler none = error internal_500 (codes "server error")
  generate_handler (some req) =
      if generate_check req
      then error internal_500 (codes "server error")
      else generated (args_of req)
