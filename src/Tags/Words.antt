-- ===== src/Tags/Words.antt =====
-- The words of a text of tags, and what reading them gives.
use subnetwork_system_torchl.Prelude.{
  ℕ, zero, suc, ◌≡◌, refl, Bool, true, false, List, [], ◌∷◌, ◌++◌, Option, none, some,
  if◌then◌else◌, ℤ, pos, negsuc, leb_ℤ, append_assoc, arith, ◌∙◌, ap, inl,
}
use subnetwork_system_torchl.Text.{
  Str, codes, str_eq, split, split-append, split-Free, Free, itoa, itoa_nat, atoi, itoa_nat-Free,
}
use subnetwork_system_torchl.Tags.Defs.{
  Tag, set_tag, read_tags, is_keyword, PoolGroup, netnut, geonode, iproyal, other_group, part,
  session_part, lifetime_text,
}

-- A value that is one word and no keyword.
pub record IsPlain (v : Str) : Type 0 where
  pub free : Free b'-' v
  pub plain : is_keyword v ≡ false

-- `Reads s W`: behind any word, the text `s` splits into the words `W`.
unfoldable pub Reads : Str → List Str → Type 0
Reads s W = (p : Str) → Free b'-' p → split b'-' (p ++ s) ≡ p ∷ W

pub apply-Reads :
    (s : Str) (W : List Str) → Reads s W → (p : Str) → Free b'-' p → split b'-' (p ++ s) ≡ p ∷ W
unfolding Reads
apply-Reads s W h = h

entry-Reads :
    (key v s : Str) (W : List Str)
    → Free b'-' key
    → Free b'-' v
    → Reads s W
    → Reads ((b'-' ∷ (key ++ b'-' ∷ v)) ++ s) (key ∷ v ∷ W)
unfolding Reads
entry-Reads key v s W k f h p q =
    let regroup : (key ++ b'-' ∷ v) ++ s ≡ key ++ (b'-' ∷ (v ++ s)) =
      append_assoc key (b'-' ∷ v) s in
    rw
      (
        regroup,
        split-append b'-' p (key ++ b'-' ∷ (v ++ s)) q,
        split-append b'-' key (v ++ s) k,
        h v f,
      )
      refl

unfoldable pub words_of : Str → Str → List Str → List Str
words_of key [] W = W
words_of key (c ∷ v) W = key ∷ (c ∷ v) ∷ W

pub part-Reads :
    (key v s : Str) (W : List Str)
    → Free b'-' key
    → Free b'-' v
    → Reads s W
    → Reads (part key v ++ s) (words_of key v W)
unfolding words_of part
part-Reads key [] s W k f h = h
part-Reads key (c ∷ v) s W k f h = entry-Reads key (c ∷ v) s W k f h

-- A word that is no keyword changes no tag.
set_tag-plain : (x next : Str) (t : Tag) → is_keyword x ≡ false → set_tag x next t ≡ t
unfolding set_tag
set_tag-plain x next t h = ground (arith, h)

-- The words of a whole text, and the tags that they stand for.
abbrev pub session_words : PoolGroup → Bool → Str → List Str → List Str
session_words g false session W = W
session_words netnut true session W = codes "session" ∷ session ∷ W
session_words geonode true session W = codes "session" ∷ session ∷ W
session_words iproyal true session W = codes "session" ∷ session ∷ W
session_words other_group true session W = W

pub session-Reads :
    (g : PoolGroup) (sticky : Bool) (session s : Str) (W : List Str)
    → Free b'-' session
    → Reads s W
    → Reads (session_part g sticky session ++ s) (session_words g sticky session W)
unfolding session_part
session-Reads g false session s W f h = h
session-Reads netnut true session s W f h =
    entry-Reads (codes "session") session s W
      (refl, (refl, (refl, (refl, (refl, (refl, (refl, tt))))))) f h
session-Reads geonode true session s W f h =
    entry-Reads (codes "session") session s W
      (refl, (refl, (refl, (refl, (refl, (refl, (refl, tt))))))) f h
session-Reads iproyal true session s W f h =
    entry-Reads (codes "session") session s W
      (refl, (refl, (refl, (refl, (refl, (refl, (refl, tt))))))) f h
session-Reads other_group true session s W f h = h

unfoldable pub lifetime_words : Option ℤ → List Str
lifetime_words d = split b'-' (lifetime_text d)

pub lifetime-Reads :
    (d : Option ℤ)
    → Reads
        (b'-' ∷ (codes "lifetime" ++ b'-' ∷ lifetime_text d))
        (codes "lifetime" ∷ lifetime_words d)
unfolding Reads lifetime_words
lifetime-Reads d p q =
    rw
      (
        split-append b'-' p (codes "lifetime" ++ b'-' ∷ lifetime_text d) q,
        split-append b'-' (codes "lifetime") (lifetime_text d)
            (refl, (refl, (refl, (refl, (refl, (refl, (refl, (refl, tt)))))))),
      )
      refl

-- What a worker finds for a duration: sixty for none and for every positive one, zero for the others.
abbrev pub read_lifetime : Option ℤ → ℤ
read_lifetime none = pos 60
read_lifetime (some d) = if leb_ℤ d (pos 0) then pos 0 else pos 60

negative-words :
    (s : Str) (t : Tag)
    → read_tags (codes "lifetime" ∷ [] ∷ s ∷ []) t ≡ record t { lifetime = pos 0 }
unfolding read_tags set_tag str_eq atoi
negative-words s t = refl

split-negative : (n : ℕ) → split b'-' (itoa (negsuc n)) ≡ [] ∷ itoa_nat (suc n) ∷ []
unfolding itoa
split-negative n =
    split-append b'-' [] (itoa_nat (suc n)) tt
    ∙ ap (◌∷◌ [])
        (split-Free b'-' (itoa_nat (suc n)) (itoa_nat-Free b'-' (suc n) (inl (omega arith))))

sixty_read :
    (t : Tag)
    → read_tags (codes "lifetime" ∷ split b'-' (codes "60")) t ≡ record t { lifetime = pos 60 }
unfolding read_tags set_tag split str_eq atoi
sixty_read t = refl

lifetime_read :
    (d : Option ℤ) (t : Tag)
    → read_tags (codes "lifetime" ∷ lifetime_words d) t ≡ record t { lifetime = read_lifetime d }
unfolding lifetime_words lifetime_text
lifetime_read none t = sixty_read t
lifetime_read (some (pos zero)) t =
    unfold read_tags in
    unfold set_tag in unfold split in unfold str_eq in unfold atoi in unfold itoa in refl
lifetime_read (some (pos (suc n))) t =
    let big : leb_ℤ (pos (suc n)) (pos 0) ≡ false = ground arith in rw big (sixty_read t)
lifetime_read (some (negsuc n)) t =
    let low : leb_ℤ (negsuc n) (pos 0) ≡ true = ground arith in
    rw (low, split-negative n) (negative-words (itoa_nat (suc n)) t)

-- A word that is no keyword is read as an empty one.
pub plain-head :
    (x : Str) (W : List Str) (t : Tag)
    → is_keyword x ≡ false
    → read_tags (x ∷ W) t ≡ read_tags ([] ∷ W) t
unfolding read_tags str_eq
plain-head x [] t h = refl
plain-head x (w ∷ W) t h = rw (set_tag-plain x w t h, set_tag-plain [] w t refl) refl

entry-read :
    (key v : Str) (W : List Str) (t : Tag)
    → is_keyword v ≡ false
    → read_tags ([] ∷ key ∷ v ∷ W) t ≡ read_tags ([] ∷ W) (set_tag key v t)
unfolding read_tags str_eq
entry-read key v W t h = rw (set_tag-plain [] key t refl) (plain-head v W (set_tag key v t) h)

pub part-read :
    (key v : Str) (W : List Str) (t : Tag)
    → is_keyword v ≡ false
    → set_tag key [] t ≡ t
    → read_tags ([] ∷ words_of key v W) t ≡ read_tags ([] ∷ W) (set_tag key v t)
unfolding words_of
part-read key [] W t h e = rw e refl
part-read key (c ∷ v) W t h e = entry-read key (c ∷ v) W t h

-- The session that a text carries: only a sticky one, of a provider that has sessions.
abbrev pub sent_session : PoolGroup → Bool → Str → Str
sent_session g false session = []
sent_session netnut true session = session
sent_session geonode true session = session
sent_session iproyal true session = session
sent_session other_group true session = []

pub session-read :
    (g : PoolGroup) (sticky : Bool) (session : Str) (W : List Str) (t : Tag)
    → is_keyword session ≡ false
    → t.session ≡ []
    → read_tags ([] ∷ session_words g sticky session W) t
      ≡ read_tags ([] ∷ W) (record t { session = sent_session g sticky session })
session-read g false session W t h e = rw e refl
session-read netnut true session W t h e =
    entry-read (codes "session") session W t h ∙ unfold set_tag in unfold str_eq in refl
session-read geonode true session W t h e =
    entry-read (codes "session") session W t h ∙ unfold set_tag in unfold str_eq in refl
session-read iproyal true session W t h e =
    entry-read (codes "session") session W t h ∙ unfold set_tag in unfold str_eq in refl
session-read other_group true session W t h e = rw e refl

empty-head : (w : Str) (W : List Str) (t : Tag) → read_tags ([] ∷ w ∷ W) t ≡ read_tags (w ∷ W) t
unfolding read_tags str_eq
empty-head w W t = rw (set_tag-plain [] w t refl) refl

pub lifetime-tail :
    (d : Option ℤ) (t : Tag)
    → read_tags ([] ∷ codes "lifetime" ∷ lifetime_words d) t
      ≡ record t { lifetime = read_lifetime d }
lifetime-tail d t = empty-head (codes "lifetime") (lifetime_words d) t ∙ lifetime_read d t
