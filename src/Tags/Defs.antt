-- ===== src/Tags/Defs.antt =====
-- Reading and writing of tags.
use subnetwork_system_torchl.Prelude.{
  Bool, true, false, List, [], ◌∷◌, ◌++◌, Option, none, some, if◌then◌else◌, ℤ, pos, leb_ℤ, Outcome,
  ok, panic,
}
use subnetwork_system_torchl.Text.{Str, codes, str_eq, atoi, itoa}

pub record Tag : Type 0 where
  pub country : Str
  pub state : Str
  pub city : Str
  pub session : Str
  pub lifetime : ℤ

abbrev pub no_tag : Tag
no_tag = record { country = []; state = []; city = []; session = []; lifetime = pos 0 }

-- The five tests of the loop's body, for the word `v` and the word behind it.
unfoldable pub set_tag : Str → Str → Tag → Tag
set_tag v next t =
    let t1 = if str_eq v (codes "country") then record t { country = next } else t in
    let t2 = if str_eq v (codes "state") then record t1 { state = next } else t1 in
    let t3 = if str_eq v (codes "city") then record t2 { city = next } else t2 in
    let t4 = if str_eq v (codes "session") then record t3 { session = next } else t3 in
    if str_eq v (codes "lifetime") then record t4 { lifetime = (atoi next).0 } else t4

-- The loop of SOCKS.handlePasswordAuth, which looks behind the last word only if there is one.
unfoldable pub read_tags : List Str → Tag → Tag
read_tags [] t = t
read_tags (v ∷ []) t = t
read_tags (v ∷ next ∷ rest) t = read_tags (next ∷ rest) (set_tag v next t)

abbrev pub is_keyword : Str → Bool
is_keyword v =
    if str_eq v (codes "country")
    then true
    else if str_eq v (codes "state")
    then true
    else if str_eq v (codes "city")
    then true
    else if str_eq v (codes "session")
    then true
    else str_eq v (codes "lifetime")

-- The loop of HTTPRequest.BasicAuth, which indexes tagArray[i+1] behind every keyword.
unfoldable pub read_tags_http : {E : Type 0} → List Str → Tag → Outcome E Tag
read_tags_http [] t = ok t
read_tags_http (v ∷ []) t = if is_keyword v then panic else ok t
read_tags_http (v ∷ next ∷ rest) t = read_tags_http (next ∷ rest) (set_tag v next t)

pub data PoolGroup : Type 0 where
  netnut geonode iproyal other_group : PoolGroup

unfoldable pub pool_group : Str → PoolGroup
pool_group s =
    if str_eq s (codes "netnut")
    then netnut
    else if str_eq s (codes "geonode")
    then geonode
    else if str_eq s (codes "iproyal")
    then iproyal
    else other_group

-- `config += "-key-" + value`, if the value is not empty.
unfoldable pub part : Str → Str → Str
part key [] = []
part key (c ∷ value) = b'-' ∷ (key ++ b'-' ∷ c ∷ value)

unfoldable pub session_part : PoolGroup → Bool → Str → Str
session_part g false session = []
session_part netnut true session = b'-' ∷ (codes "session" ++ b'-' ∷ session)
session_part geonode true session = b'-' ∷ (codes "session" ++ b'-' ∷ session)
session_part iproyal true session = b'-' ∷ (codes "session" ++ b'-' ∷ session)
session_part other_group true session = []

unfoldable pub lifetime_text : Option ℤ → Str
lifetime_text none = codes "60"
lifetime_text (some d) = if leb_ℤ d (pos 0) then itoa d else codes "60"

-- GenerateproxyString; `session` is the random text that a sticky session gets, digits for netnut
-- and the first eight characters of a new UUID for the others.
unfoldable pub generate_proxy_string : Str → Str → Bool → Str → Str → Option ℤ → Str → Str
unfolding part session_part lifetime_text
generate_proxy_string group country sticky city state duration session =
    part (codes "country") country
    ++ (part (codes "state") state
        ++ (part (codes "city") city
            ++ (session_part (pool_group group) sticky session
                ++ b'-' ∷ (codes "lifetime" ++ b'-' ∷ lifetime_text duration))))
