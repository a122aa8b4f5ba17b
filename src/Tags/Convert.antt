-- ===== src/Tags/Convert.antt =====
-- What the account names of convertTag say, read as tags.
use subnetwork_system_torchl.Prelude.{
  ℕ, zero, suc, ◌<◌, ◌^◌, ◌≡◌, refl, true, false, List, [], ◌∷◌, ◌++◌, if◌then◌else◌, ℤ, pos,
  negsuc, pos_part, leb_ℤ, append-nil, arith, ◌∙◌, ap, inl, inr,
}
use subnetwork_system_torchl.Text.{
  Str, codes, str_eq, split, split-Free, Free, itoa, itoa_nat, atoi, atoi-itoa, itoa_nat-Free,
}
use subnetwork_system_torchl.Tags.Defs.{Tag, no_tag, set_tag, read_tags, is_keyword, part}
use subnetwork_system_torchl.Tags.Words.{
  IsPlain, Reads, apply-Reads, words_of, part-Reads, plain-head, part-read,
}
use subnetwork_system_torchl.Tags.Accounts.{lifetime_value, geonode_name, convert_tag}

-- The lifetime that an upstream is asked for, in minutes; zero is none.
abbrev pub asked_lifetime : ℤ → ℤ
asked_lifetime l = if leb_ℤ l (pos 0) then pos 0 else l

empty-Reads : Reads [] []
unfolding Reads
empty-Reads p f = ap (split b'-') (append-nil p) ∙ split-Free b'-' p f

lifetime-Free : (l : ℤ) → Free b'-' (lifetime_value l)
unfolding lifetime_value itoa
lifetime-Free (pos zero) = tt
lifetime-Free (pos (suc n)) =
    let big : leb_ℤ (pos (suc n)) (pos 0) ≡ false = ground arith in
    rw big (itoa_nat-Free b'-' (suc n) (inl (omega arith)))
lifetime-Free (negsuc n) = let low : leb_ℤ (negsuc n) (pos 0) ≡ true = ground arith in rw low tt

is_keyword-other : (s : Str) → Free b'c' s → Free b's' s → Free b'l' s → is_keyword s ≡ false
unfolding str_eq
is_keyword-other [] f g h = refl
is_keyword-other (c ∷ s) f g h = ground (arith, f.0, g.0, h.0)

-- A printed number is no keyword.
is_keyword-itoa : (n : ℕ) → is_keyword (itoa (pos n)) ≡ false
unfolding itoa
is_keyword-itoa n =
    is_keyword-other (itoa_nat n) (itoa_nat-Free b'c' n (inr (omega arith)))
      (itoa_nat-Free b's' n (inr (omega arith))) (itoa_nat-Free b'l' n (inr (omega arith)))

set_lifetime :
    (v : Str) (t : Tag) → set_tag (codes "lifetime") v t ≡ record t { lifetime = (atoi v).0 }
unfolding set_tag str_eq
set_lifetime v t = refl

no_lifetime : (t : Tag) → t.lifetime ≡ pos 0 → set_tag (codes "lifetime") [] t ≡ t
unfolding set_tag str_eq atoi
no_lifetime t e = rw (← e) refl

unasked :
    (t : Tag)
    → t.lifetime ≡ pos 0
    → read_tags ([] ∷ words_of (codes "lifetime") [] []) t ≡ record t { lifetime = pos 0 }
unfolding read_tags words_of
unasked t e = rw (← e) refl

asked :
    (n : ℕ) (t : Tag)
    → suc n < 2 ^ 63
    → t.lifetime ≡ pos 0
    → read_tags ([] ∷ words_of (codes "lifetime") (itoa (pos (suc n))) []) t
      ≡ record t { lifetime = pos (suc n) }
unfolding read_tags
asked n t l e =
    part-read (codes "lifetime") (itoa (pos (suc n))) [] t (is_keyword-itoa (suc n))
      (no_lifetime t e)
    ∙ set_lifetime (itoa (pos (suc n))) t
    ∙ ap (λ z. record t { lifetime = z.0 }) (atoi-itoa (pos (suc n)) l (omega arith))

lifetime-read :
    (l : ℤ) (t : Tag)
    → pos_part l < 2 ^ 63
    → t.lifetime ≡ pos 0
    → read_tags ([] ∷ words_of (codes "lifetime") (lifetime_value l) []) t
      ≡ record t { lifetime = asked_lifetime l }
unfolding lifetime_value
lifetime-read (pos zero) t h e = unasked t e
lifetime-read (pos (suc n)) t h e =
    let big : leb_ℤ (pos (suc n)) (pos 0) ≡ false = ground arith in rw big (asked n t h e)
lifetime-read (negsuc n) t h e =
    let low : leb_ℤ (negsuc n) (pos 0) ≡ true = ground arith in rw low (unasked t e)

module _ (username : Str) (t : Tag) where
  words : List Str
  words = words_of (codes "country") t.country (
      words_of (codes "state") t.state (
        words_of (codes "city") t.city (
          words_of (codes "session") t.session
            (words_of (codes "lifetime") (lifetime_value t.lifetime) []))))

  name-Reads :
      Free b'-' t.country
      → Free b'-' t.state
      → Free b'-' t.city
      → Free b'-' t.session
      → Reads
          (part (codes "country") t.country
            ++ (part (codes "state") t.state
                ++ (part (codes "city") t.city
                    ++ (part (codes "session") t.session
                        ++ (part (codes "lifetime") (lifetime_value t.lifetime) ++ [])))))
          words
  unfolding words
  name-Reads f g h k =
      part-Reads (codes "country") t.country _ _
        (refl, (refl, (refl, (refl, (refl, (refl, (refl, tt))))))) f
        (part-Reads (codes "state") t.state _ _ (refl, (refl, (refl, (refl, (refl, tt))))) g
          (part-Reads (codes "city") t.city _ _ (refl, (refl, (refl, (refl, tt)))) h
            (part-Reads (codes "session") t.session _ _
              (refl, (refl, (refl, (refl, (refl, (refl, (refl, tt))))))) k
              (part-Reads (codes "lifetime") (lifetime_value t.lifetime) _ _
                (refl, (refl, (refl, (refl, (refl, (refl, (refl, (refl, tt))))))))
                (lifetime-Free t.lifetime) empty-Reads))))

  words-read :
      IsPlain t.country
      → IsPlain t.state
      → IsPlain t.city
      → IsPlain t.session
      → pos_part t.lifetime < 2 ^ 63
      → read_tags ([] ∷ words) no_tag ≡ record t { lifetime = asked_lifetime t.lifetime }
  unfolding words set_tag str_eq
  words-read f g h k l =
      part-read (codes "country") t.country _ _ f.plain refl
      ∙ part-read (codes "state") t.state _ _ g.plain refl
      ∙ part-read (codes "city") t.city _ _ h.plain refl
      ∙ part-read (codes "session") t.session _ _ k.plain refl
      ∙ lifetime-read t.lifetime _ l refl

  -- What a geonode upstream gets is the account's name with the tags behind it, a colon and the
  -- account's password; read as the worker reads a user's words, that name gives the tags of the
  -- user back, with the lifetime if it is positive, as long as the name and the tags are words
  -- without a dash and none of the five keywords.
  pub convert_tag-geonode :
      (password : Str)
      → IsPlain username
      → IsPlain t.country
      → IsPlain t.state
      → IsPlain t.city
      → IsPlain t.session
      → pos_part t.lifetime < 2 ^ 63
      → (convert_tag username password t (codes "geonode")
          ≡ geonode_name username t ++ b':' ∷ password)
        × (read_tags (split b'-' (geonode_name username t)) no_tag
            ≡ record t { lifetime = asked_lifetime t.lifetime })
  unfolding convert_tag geonode_name str_eq
  convert_tag-geonode password p f g h k l =
      let last = append-nil (part (codes "lifetime") (lifetime_value t.lifetime)) in
      let e = apply-Reads _ _ (name-Reads f.free g.free h.free k.free) username p.free in
      (refl, rw (← last, e) (plain-head username words no_tag p.plain ∙ words-read f g h k l))
