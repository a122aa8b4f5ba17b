-- ===== src/Tags/Roundtrip.antt =====
-- The text that Captain prints for a user, read by a worker.
use subnetwork_system_torchl.Prelude.{◌≡◌, refl, Bool, List, [], ◌∷◌, ◌++◌, Option, ℤ, ◌∙◌, ap}
use subnetwork_system_torchl.Text.{Str, codes, str_eq, split, Free}
use subnetwork_system_torchl.Tags.Defs.{
  no_tag, set_tag, read_tags, pool_group, generate_proxy_string,
}
use subnetwork_system_torchl.Tags.Words.{
  IsPlain, Reads, apply-Reads, words_of, part-Reads, session_words, session-Reads, lifetime_words,
  lifetime-Reads, read_lifetime, plain-head, part-read, sent_session, session-read, lifetime-tail,
}

-- A word with the text that Captain prints for a user behind it.
module _ (group country : Str) (sticky : Bool) (city state : Str) (duration : Option ℤ)
    (session : Str) where
  words : List Str
  words = words_of (codes "country") country (
      words_of (codes "state") state (
        words_of (codes "city") city (
          session_words (pool_group group) sticky session
            (codes "lifetime" ∷ lifetime_words duration))))

  generated-Reads :
      Free b'-' country
      → Free b'-' state
      → Free b'-' city
      → Free b'-' session
      → Reads (generate_proxy_string group country sticky city state duration session) words
  unfolding generate_proxy_string words
  generated-Reads f g h k =
      part-Reads (codes "country") country _ _
        (refl, (refl, (refl, (refl, (refl, (refl, (refl, tt))))))) f
        (part-Reads (codes "state") state _ _ (refl, (refl, (refl, (refl, (refl, tt))))) g
          (part-Reads (codes "city") city _ _ (refl, (refl, (refl, (refl, tt)))) h
            (session-Reads (pool_group group) sticky session _ _ k (lifetime-Reads duration))))

  words-read :
      IsPlain country
      → IsPlain state
      → IsPlain city
      → IsPlain session
      → read_tags ([] ∷ words) no_tag ≡ record {
        country = country;
        state = state;
        city = city;
        session = sent_session (pool_group group) sticky session;
        lifetime = read_lifetime duration;
      }
  unfolding words set_tag str_eq
  words-read f g h k =
      part-read (codes "country") country _ _ f.plain refl
      ∙ part-read (codes "state") state _ _ g.plain refl
      ∙ part-read (codes "city") city _ _ h.plain refl
      ∙ session-read (pool_group group) sticky session _ _ k.plain refl
      ∙ lifetime-tail duration _

  -- A worker that splits a password with the text behind it finds the password, and the country,
  -- state, city and session that Captain was given, as long as these and the password are words
  -- without a dash and none of the five keywords. The lifetime is not what the user asked for: it is
  -- sixty without a duration or with a positive one, and zero with any other.
  pub read_tags-generate_proxy_string :
      (password : Str)
      → IsPlain password
      → IsPlain country
      → IsPlain state
      → IsPlain city
      → IsPlain session
      → let text =
          password ++ generate_proxy_string group country sticky city state duration session in
        ((rest : List Str) × (split b'-' text ≡ password ∷ rest))
        × (read_tags (split b'-' text) no_tag ≡ record {
          country = country;
          state = state;
          city = city;
          session = sent_session (pool_group group) sticky session;
          lifetime = read_lifetime duration;
        })
  read_tags-generate_proxy_string password p f g h k =
      let e = apply-Reads _ _ (generated-Reads f.free g.free h.free k.free) password p.free in
      (
        (words, e),
        ap (λ ws. read_tags ws no_tag) e
            ∙ plain-head password words no_tag p.plain
            ∙ words-read f g h k,
      )
