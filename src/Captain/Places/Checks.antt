-- ===== src/Captain/Places/Checks.antt =====
-- Which bodies make a handler panic.
use subnetwork_system_torchl.Prelude.{◌≡◌, refl, true, false, ◌||◌, Bool, Option, none, some, arith}
use subnetwork_system_torchl.Text.{Str}
use subnetwork_system_torchl.Captain.Replies.{Answer, Response, aborted, respond}
use subnetwork_system_torchl.Captain.Places.Defs.{
  Country, UpstreamRow, AddCountryParams, AddUpstreamParams, create_country, create_upstream,
  country_created, upstream_created,
}
use subnetwork_system_torchl.Captain.Places.Handlers.{
  CreateCountryRequest, CreateUpstreamRequest, upstream_check, create_country_handler,
  create_upstream_handler,
}

abbrev pub is_none : Option Str → Bool
is_none none = true
is_none (some s) = false

abbrev pub is_aborted : {A : Type 0} → Response A → Bool
is_aborted aborted = true
is_aborted _ = false

-- A body that passes createUpstream's check makes it panic exactly if it lacks the user name or the
-- password.
pub create_upstream_handler-aborted :
    (query : AddUpstreamParams → Answer UpstreamRow) (req : CreateUpstreamRequest)
    → upstream_check req ≡ false
    → is_aborted (create_upstream_handler query (some req))
      ≡ (is_none req.username || is_none req.password)
unfolding upstream_check create_upstream_handler create_upstream upstream_created respond
create_upstream_handler-aborted query req checked = ground arith

-- The checks of createCountry rule out every nil pointer that the service dereferences.
pub create_country_handler-aborted :
    (query : AddCountryParams → Answer Country) (body : Option CreateCountryRequest)
    → is_aborted (create_country_handler query body) ≡ false
unfolding create_country_handler create_country country_created respond
create_country_handler-aborted query none = refl
create_country_handler-aborted query (some req) = ground arith
