-- ===== src/Tags/Accounts.antt =====
-- worker/services/service.go: convertTag, the credentials that carry a user's tags to an upstream.
use subnetwork_system_torchl.Prelude.{
  ◌/◌, Bool, true, false, ◌&&◌, ◌||◌, [], ◌∷◌, ◌++◌, if◌then◌else◌, ℤ, pos, negsuc, leb_ℤ, ltb_ℤ,
}
use subnetwork_system_torchl.Text.{Str, codes, str_eq, itoa}
use subnetwork_system_torchl.Tags.Defs.{Tag, part}

abbrev present : Str → Bool
present [] = false
present (c ∷ s) = true

-- newstring += separator + key + separator' + value, if the value is not empty.
abbrev prefixed : Str → Str → Str
prefixed key [] = []
prefixed key (c ∷ value) = key ++ c ∷ value

unfoldable pub netnut_text : Str → Str → Tag → Str
netnut_text username password t =
    username
    ++ ((if present t.country && (present t.city || present t.state)
          then codes "-res_sc-"
            ++ (t.country ++ (prefixed (codes "_") t.state ++ prefixed (codes "_") t.city))
          else codes "-res-" ++ t.country)
        ++ (prefixed (codes "-sid-") t.session ++ b':' ∷ password))

-- The lifetime, if it is positive.
unfoldable pub lifetime_value : ℤ → Str
lifetime_value l = if leb_ℤ l (pos 0) then [] else itoa l

unfoldable pub geonode_name : Str → Tag → Str
unfolding lifetime_value
geonode_name username t =
    username
    ++ (part (codes "country") t.country
        ++ (part (codes "state") t.state
            ++ (part (codes "city") t.city
                ++ (part (codes "session") t.session
                    ++ part (codes "lifetime") (lifetime_value t.lifetime)))))

-- Go's quotient of a positive int.
abbrev hours : ℤ → ℤ
hours (pos n) = pos (n / 60)
hours (negsuc n) = negsuc n

unfoldable pub iproyal_lifetime : ℤ → Str
iproyal_lifetime l =
    if leb_ℤ l (pos 0)
    then []
    else if ltb_ℤ l (pos 60)
    then codes "_lifetime-" ++ (itoa l ++ codes "m")
    else codes "_lifetime-" ++ (itoa (hours l) ++ codes "h")

unfoldable pub iproyal_text : Str → Str → Tag → Str
unfolding iproyal_lifetime
iproyal_text username password t =
    username
    ++ b':'
      ∷ (password
          ++ (prefixed (codes "_country-") t.country
              ++ (prefixed (codes "_city-") t.city
                  ++ (prefixed (codes "_session-") t.session ++ iproyal_lifetime t.lifetime))))

unfoldable pub convert_tag : Str → Str → Tag → Str → Str
unfolding netnut_text geonode_name iproyal_text
convert_tag username password t upstream =
    if str_eq upstream (codes "netnut")
    then netnut_text username password t
    else if str_eq upstream (codes "geonode")
    then geonode_name username t ++ b':' ∷ password
    else if str_eq upstream (codes "iproyal")
    then iproyal_text username password t
    else []
