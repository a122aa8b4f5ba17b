-- ===== src/Tags/Reading.antt =====
-- The loops of the two services that read tags, compared.
use subnetwork_system_torchl.Prelude.{◌≡◌, refl, List, [], ◌∷◌, ok, panic, if◌then◌else◌}
use subnetwork_system_torchl.Text.{Str, str_eq}
use subnetwork_system_torchl.Tags.Defs.{Tag, read_tags, read_tags_http, is_keyword}

unfoldable pub last_of : List Str → Str
last_of [] = []
last_of (p ∷ []) = p
last_of (p ∷ q ∷ ps) = last_of (q ∷ ps)

-- Whatever the words, the HTTP service reads the same tags from them as the SOCKS service, except
-- that a keyword as the last word makes it panic, where the SOCKS service ignores that word.
pub read_tags_http-read_tags :
    {E : Type 0} (words : List Str) (t : Tag)
    → read_tags_http {E = E} words t
      ≡ (if is_keyword (last_of words) then panic else ok (read_tags words t))
unfolding read_tags_http read_tags last_of str_eq
read_tags_http-read_tags [] t = refl
read_tags_http-read_tags (v ∷ []) t = refl
read_tags_http-read_tags (v ∷ next ∷ words) t = read_tags_http-read_tags (next ∷ words) _
