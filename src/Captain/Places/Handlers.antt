-- ===== src/Captain/Places/Handlers.antt =====
-- captain/internal/server/handlers/pool_handler.go: regions, countries and upstreams. A body is what
-- the JSON decoder made of it; none is its error.
use subnetwork_system_torchl.Prelude.{
  String, Bool, true, false, ◌||◌, List, [], ◌∷◌, Option, none, some, if◌then◌else◌, ℤ,
}
use subnetwork_system_torchl.Text.{Str, codes, str_eq}
use subnetwork_system_torchl.Manager.Models.{Uuid}
use subnetwork_system_torchl.Captain.Replies.{
  Answer, Ret, done, failed, crashed, Response, json, error, aborted, bad_request_400, ok_200,
  created_201, respond,
}
use subnetwork_system_torchl.Captain.Places.Defs.{
  Region, Country, UpstreamRow, GetUpstreamResponse, AddCountryParams, AddUpstreamParams,
  get_regions, create_region, delete_region, get_countries, create_country, delete_country,
  get_upstreams, create_upstream, delete_upstream,
}

-- p == nil || *p == ""
abbrev lacks : Option Str → Bool
lacks none = true
lacks (some s) = str_eq s []

abbrev missing {ℓ} : {A : Type ℓ} → Option A → Bool
missing none = true
missing (some a) = false

abbrev bad : {A : Type 0} → String → Response A
bad message = error bad_request_400 (codes message)

-- The reply of the three handlers that delete says "deleted", whatever the service says.
deleted : Ret (Unit {0}) → Response Str
deleted (done u code message) = json ok_200 (codes "deleted")
deleted (failed code message) = error code message
deleted crashed = aborted

unfoldable pub get_regions_handler : Answer (List Region) → Response (List Region)
get_regions_handler answer = respond ok_200 (get_regions answer)

unfoldable pub create_region_handler : (Str → Answer Region) → Option (Option Str) → Response Region
create_region_handler query none = bad "err in request body"
create_region_handler query (some name) =
    if lacks name then bad "add Request name" else respond created_201 (create_region query name)

unfoldable pub delete_region_handler :
    (Str → Answer (Unit {0})) → Option (Option Str) → Response Str
unfolding deleted
delete_region_handler delete none = bad "err in request body"
delete_region_handler delete (some none) = bad "add region name"
delete_region_handler delete (some (some [])) = bad "add region name"
delete_region_handler delete (some (some (c ∷ name))) = deleted (delete_region (delete (c ∷ name)))

unfoldable pub get_countries_handler : Answer (List Country) → Response (List Country)
get_countries_handler answer = respond ok_200 (get_countries answer)

pub record CreateCountryRequest : Type 0 where
  pub name : Option Str
  pub code : Option Str
  pub region_id : Option Uuid

unfoldable pub create_country_handler :
    (AddCountryParams → Answer Country) → Option CreateCountryRequest → Response Country
create_country_handler query none = bad "err in request body"
create_country_handler query (some req) =
    if lacks req.name || (lacks req.code || missing req.region_id)
    then bad "err in request body"
    else respond created_201 (create_country query req.name req.code req.region_id)

unfoldable pub delete_country_handler :
    (Str → Answer (Unit {0})) → Option (Option Str) → Response Str
unfolding deleted
delete_country_handler delete none = bad "err in request body"
delete_country_handler delete (some none) = bad "add country name"
delete_country_handler delete (some (some [])) = bad "add country name"
delete_country_handler delete (some (some (c ∷ name))) =
    deleted (delete_country (delete (c ∷ name)))

unfoldable pub get_upstreams_handler :
    Answer (List UpstreamRow) → Response (Option (List GetUpstreamResponse))
get_upstreams_handler answer = respond ok_200 (get_upstreams answer)

pub record CreateUpstreamRequest : Type 0 where
  pub tag : Option Str
  pub upstream_provider : Option Str
  pub config_format : Option Str
  pub username : Option Str
  pub password : Option Str
  pub port : Option ℤ
  pub domain : Option Str

-- The check says nothing of the user name and the password.
unfoldable pub upstream_check : CreateUpstreamRequest → Bool
upstream_check req =
    lacks req.upstream_provider
    || (lacks req.config_format || (lacks req.tag || (missing req.port || lacks req.domain)))

unfoldable pub create_upstream_handler :
    (AddUpstreamParams → Answer UpstreamRow) → Option CreateUpstreamRequest → Response UpstreamRow
unfolding upstream_check
create_upstream_handler query none = bad "err in request body"
create_upstream_handler query (some req) =
    if upstream_check req
    then bad "err in request body"
    else respond created_201 (
        create_upstream query req.tag req.upstream_provider req.config_format req.username
          req.password req.port req.domain)

unfoldable pub delete_upstream_handler :
    (Str → Answer (Unit {0})) → Option (Option Str) → Response Str
unfolding deleted
delete_upstream_handler delete none = bad "err in request body"
delete_upstream_handler delete (some none) = bad "tag is required"
delete_upstream_handler delete (some (some [])) = bad "tag is required"
delete_upstream_handler delete (some (some (c ∷ tag))) =
    deleted (delete_upstream (delete (c ∷ tag)))
