-- ===== src/Captain/Places/Defs.antt =====
-- captain/internal/server/service/pool_service.go: regions, countries and upstreams. Each query of the
-- database is an argument. Time stamps are left out.
use subnetwork_system_torchl.Prelude.{
  ℕ, List, [], map, Option, none, some, ℤ, pos, negsuc, ◌-◌, ◌%◌, ◌^◌, ltb, if◌then◌else◌,
}
use subnetwork_system_torchl.Text.{Str, codes}
use subnetwork_system_torchl.Manager.Models.{Uuid}
use subnetwork_system_torchl.Captain.Replies.{
  Answer, rows, no_rows, broken, Ret, done, failed, crashed, ok_200, created_201, not_found_404,
  internal_500,
}

pub record Region : Type 0 where
  pub id : Uuid
  pub name : Str

pub record Country : Type 0 where
  pub id : Uuid
  pub name : Str
  pub code : Str
  pub region_id : Uuid

-- An upstream as the database returns it.
pub record UpstreamRow : Type 0 where
  pub id : Uuid
  pub tag : Str
  pub upstream_provider : Str
  pub config_format : Str
  pub username : Str
  pub password : Str
  pub port : ℤ
  pub domain : Str

-- The list of upstreams keeps their credentials to itself.
pub record GetUpstreamResponse : Type 0 where
  pub id : Uuid
  pub tag : Str
  pub upstream_provider : Str
  pub format : Str
  pub port : ℤ
  pub domain : Str

pub record AddCountryParams : Type 0 where
  pub name : Str
  pub code : Str
  pub region_id : Uuid

pub record AddUpstreamParams : Type 0 where
  pub tag : Str
  pub upstream_provider : Str
  pub config_format : Str
  pub username : Str
  pub password : Str
  pub port : ℤ
  pub domain : Str

unfoldable pub get_regions : Answer (List Region) → Ret (List Region)
get_regions (rows regions) = done regions ok_200 []
get_regions _ = failed internal_500 (codes "failed to get regions")

region_created : Answer Region → Ret Region
region_created (rows region) = done region created_201 (codes "region created")
region_created _ = failed internal_500 (codes "failed to create region")

-- *req.Name, which is nil in none.
unfoldable pub create_region : (Str → Answer Region) → Option Str → Ret Region
unfolding region_created
create_region query none = crashed
create_region query (some name) = region_created (query name)

unfoldable pub delete_region : Answer (Unit {0}) → Ret (Unit {0})
delete_region (rows _) = done tt ok_200 (codes "region deleted")
delete_region _ = failed internal_500 (codes "failed to delete region")

unfoldable pub get_countries : Answer (List Country) → Ret (List Country)
get_countries (rows countries) = done countries ok_200 []
get_countries _ = failed internal_500 (codes "failed to get countries")

unfoldable pub country_created : Answer Country → Ret Country
country_created (rows country) = done country created_201 (codes "country created")
country_created _ = failed internal_500 (codes "failed to create country")

unfoldable pub create_country :
    (AddCountryParams → Answer Country) → Option Str → Option Str → Option Uuid → Ret Country
unfolding country_created
create_country query (some name) (some code) (some region_id) =
    country_created (query (record { name = name; code = code; region_id = region_id }))
create_country query _ _ _ = crashed

unfoldable pub delete_country : Answer (Unit {0}) → Ret (Unit {0})
delete_country (rows _) = done tt ok_200 (codes "country deleted")
delete_country _ = failed internal_500 (codes "failed to delete country")

abbrev listed : UpstreamRow → GetUpstreamResponse
listed u = record {
  id = u.id;
  tag = u.tag;
  upstream_provider = u.upstream_provider;
  format = u.config_format;
  port = u.port;
  domain = u.domain;
}

-- none is the nil slice, which comes without an error.
unfoldable pub get_upstreams : Answer (List UpstreamRow) → Ret (Option (List GetUpstreamResponse))
get_upstreams (rows upstreams) = done (some (map listed upstreams)) ok_200 []
get_upstreams no_rows = done none not_found_404 (codes "upstreams not found")
get_upstreams broken = failed internal_500 (codes "failed to get upstreams")

unfoldable pub upstream_created : Answer UpstreamRow → Ret UpstreamRow
upstream_created (rows upstream) = done upstream created_201 (codes "upstream created")
upstream_created _ = failed internal_500 (codes "failed to create upstream")

abbrev signed : ℕ → ℤ
signed n = if ltb n (2 ^ 31) then pos n else negsuc (2 ^ 32 - 1 - n)

-- int32 of an int
unfoldable pub int32 : ℤ → ℤ
int32 (pos n) = signed (n % 2 ^ 32)
int32 (negsuc n) = signed (2 ^ 32 - 1 - n % 2 ^ 32)

-- All seven pointers are dereferenced.
unfoldable pub create_upstream :
    (AddUpstreamParams → Answer UpstreamRow)
    → Option Str
    → Option Str
    → Option Str
    → Option Str
    → Option Str
    → Option ℤ
    → Option Str
    → Ret UpstreamRow
unfolding upstream_created int32
create_upstream query (some tag) (some provider) (some format) (some username) (some password)
      (some port) (some domain) =
    upstream_created (
      query (record {
        tag = tag;
        upstream_provider = provider;
        config_format = format;
        username = username;
        password = password;
        port = int32 port;
        domain = domain;
      }))
create_upstream query _ _ _ _ _ _ _ = crashed

unfoldable pub delete_upstream : Answer (Unit {0}) → Ret (Unit {0})
delete_upstream (rows _) = done tt ok_200 (codes "upstream deleted")
delete_upstream _ = failed internal_500 (codes "failed to delete upstream")
