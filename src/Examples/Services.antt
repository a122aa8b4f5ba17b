-- ===== src/Examples/Services.antt =====
-- HTTP requests, tags and the checker, run.
use subnetwork_system_torchl.Prelude.{
  arith, ◌≡◌, refl, ◌++◌, ◌&&◌, true, Bool, List, [], ◌∷◌, Option, none, some, ok, panic, pos,
}
use subnetwork_system_torchl.Text.{
  itoa, Str, codes, split, str_eq, trim, fields, mem_byte, to_upper, split_crlf, split_n2,
  has_prefix, has_suffix,
}
use subnetwork_system_torchl.Tags.{
  Tag, no_tag, set_tag, read_tags, read_tags_http, generate_proxy_string, pool_group,
}
use subnetwork_system_torchl.Tags.Reading.{last_of, read_tags_http-read_tags}
use subnetwork_system_torchl.Tags.Words.{IsPlain}
use subnetwork_system_torchl.Tags.Accounts.{convert_tag}
use subnetwork_system_torchl.Tags.Roundtrip.{read_tags-generate_proxy_string}
use subnetwork_system_torchl.Http.{
  HttpError, HttpRequest, check_credentials, new_http_request, https, basic_auth, get_header,
  add_port_if_not,
}
use subnetwork_system_torchl.Http.Credentials.{Vouched, new_http_request_safe}
use subnetwork_system_torchl.Dict.{insert, lookup}
use subnetwork_system_torchl.Cmap
use subnetwork_system_torchl.Checker.{Checker, new_checker, load_map}
use subnetwork_system_torchl.Tags.Accounts.{geonode_name}
use subnetwork_system_torchl.Tags.Convert.{convert_tag-geonode}

read_tags_http-read_tags_example :
    read_tags_http {E = HttpError}
      (codes "pw" ∷ codes "country" ∷ codes "de" ∷ codes "city" ∷ [])
      no_tag
    ≡ panic
unfolding last_of str_eq
read_tags_http-read_tags_example =
    read_tags_http-read_tags (codes "pw" ∷ codes "country" ∷ codes "de" ∷ codes "city" ∷ []) no_tag

pw-IsPlain : IsPlain (codes "pw")
unfolding str_eq
pw-IsPlain = record { free = (refl, (refl, tt)); plain = refl }

de-IsPlain : IsPlain (codes "de")
unfolding str_eq
de-IsPlain = record { free = (refl, (refl, tt)); plain = refl }

none-IsPlain : IsPlain []
unfolding str_eq
none-IsPlain = record { free = tt; plain = refl }

seven-IsPlain : IsPlain (codes "777")
unfolding str_eq
seven-IsPlain = record { free = (refl, (refl, (refl, tt))); plain = refl }

-- A sticky German session of half an hour, which the worker takes for one of an hour.
read_tags-generate_proxy_string_example :
    let text =
      codes "pw"
      ++ generate_proxy_string
          (codes "geonode")
          (codes "de")
          true
          []
          []
          (some (pos 30))
          (codes "777") in
    ((rest : List Str) × (split b'-' text ≡ codes "pw" ∷ rest))
    × (read_tags (split b'-' text) no_tag ≡ record {
      country = codes "de";
      state = [];
      city = [];
      session = codes "777";
      lifetime = pos 60;
    })
unfolding pool_group str_eq
read_tags-generate_proxy_string_example =
    read_tags-generate_proxy_string (codes "geonode") (codes "de") true [] [] (some (pos 30))
      (codes "777") (codes "pw") pw-IsPlain de-IsPlain none-IsPlain none-IsPlain seven-IsPlain

abbrev verify : Str → Str → Bool
verify user password = str_eq user (codes "bob") && str_eq password (codes "pw")

-- Credentials that are not encoded, and the host that a URL gives back.
abbrev decode : Str → Option Str
decode word = some word

abbrev url_host : Str → Option Str
url_host url = some url

abbrev head : Str
head = codes "CONNECT a.de:443 HTTP/1.1\r\nProxy-Authorization: Basic bob:pw-country-de\r\n\r\n"

abbrev read : HttpRequest
read = record {
  method = codes "CONNECT";
  host_or_url = codes "a.de:443";
  url = [];
  host = codes "a.de:443";
  user = codes "bob";
  tag = record { country = codes "de"; state = []; city = []; session = []; lifetime = pos 0 };
}

request_parsed : new_http_request decode url_host (some verify) head ≡ ok read
unfolding new_http_request https check_credentials basic_auth get_header add_port_if_not split
    str_eq trim fields mem_byte to_upper split_crlf split_n2 read_tags_http set_tag has_prefix
    has_suffix
request_parsed = refl

new_http_request_safe_example : Vouched (some verify) (codes "bob") read.tag
new_http_request_safe_example =
    new_http_request_safe decode url_host (some verify) head read request_parsed

-- A checker that blocks example.org, and addresses that are their own host names.
abbrev hostname : Str → Option Str
hostname address = some address

abbrev lists : Checker
lists = new_checker (some (codes "example.org\n")) none

listed : Cmap.has lists.blocked_map (codes "example.org") ≡ true
unfolding new_checker load_map split trim Cmap.has Cmap.store Cmap.new_concurrent_map
    Cmap.shard_index insert lookup str_eq mem_byte
listed = refl

abbrev german : Tag
german = record {
  country = codes "de";
  state = [];
  city = [];
  session = codes "777";
  lifetime = pos 30;
}

-- An iproyal account is asked for an hour where a user has asked for more than one.
iproyal_hours :
    convert_tag (codes "acct") (codes "key") (record german { lifetime = pos 90 }) (codes "iproyal")
    ≡ codes "acct:key_country-de_session-777_lifetime-1h"
unfolding convert_tag str_eq itoa
iproyal_hours = refl

-- www.evil.org is under a blocked domain.
abbrev evil : Checker
evil = new_checker (some (codes "evil.org")) none

abbrev evening : Tag
evening = record no_tag { country = codes "de"; session = codes "777"; lifetime = pos 30 }

convert_tag-geonode_example :
    (convert_tag (codes "pw") (codes "x") evening (codes "geonode")
      ≡ geonode_name (codes "pw") evening ++ b':' ∷ codes "x")
    × (read_tags (split b'-' (geonode_name (codes "pw") evening)) no_tag ≡ evening)
convert_tag-geonode_example =
    convert_tag-geonode (codes "pw") evening (codes "x") pw-IsPlain de-IsPlain none-IsPlain
      none-IsPlain seven-IsPlain (omega arith)
