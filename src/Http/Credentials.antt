-- ===== src/Http/Credentials.antt =====
-- Whom BasicAuth lets in.
use subnetwork_system_torchl.Prelude.{
  ◌≡◌, refl, ◌≢◌, Bool, true, List, [], ◌∷◌, ◌++◌, Option, none, some, Outcome, ok, err, panic,
  ◌>>=◌, if◌then◌else◌, Bool-cases, inl, inr, arith, subst, ltb, length,
}
use subnetwork_system_torchl.Text.{
  Str, codes, split, split-Free, split-append, trim, Free, fields, mem_byte, to_upper,
}
use subnetwork_system_torchl.Tags.{Tag, no_tag, read_tags, read_tags_http, is_keyword}
use subnetwork_system_torchl.Tags.Reading.{last_of, read_tags_http-read_tags}
use subnetwork_system_torchl.Http.Defs.{
  HttpError, auth_failed, answer_auth, HttpRequest, check_parts, check_credentials, check_decoded,
  check_words, check_header, parsed, by_words, bad_head, get_http_url, validated, first_of,
  basic_auth, https, http, new_http_request, is_https,
}

-- What the validator must have seen: the name, and the first dash-separated part of the secret.
pub record Vouched (v : Option (Str → Str → Bool)) (user : Str) (tag : Tag) : Type 0 where
  pub validator : Str → Str → Bool
  pub secret : Str
  pub given : v ≡ some validator
  pub accepted : validator user (first_of (split b'-' secret)) ≡ true
  pub tags : tag ≡ read_tags (split b'-' secret) no_tag

-- Credentials without a colon make the worker panic before any validator is asked.
pub check_credentials-no_colon :
    (v : Option (Str → Str → Bool)) (text : Str)
    → Free b':' (trim (codes " ") text)
    → check_credentials v text ≡ panic
unfolding check_credentials
check_credentials-no_colon v text f = rw (split-Free b':' (trim (codes " ") text) f) refl

-- What the check comes to for a name and a secret, in the order in which the code decides it.
pub check_credentials_lem :
    (v : Option (Str → Str → Bool)) (user secret : Str)
    → Free b':' user
    → Free b':' secret
    → trim (codes " ") (user ++ b':' ∷ secret) ≡ user ++ b':' ∷ secret
    → check_credentials v (user ++ b':' ∷ secret) ≡ (
        if is_keyword (last_of (split b'-' secret))
        then panic
        else if validated v user (first_of (split b'-' secret))
        then ok (user, read_tags (split b'-' secret) no_tag)
        else err auth_failed)
unfolding check_credentials
check_credentials_lem v user secret f g t =
    rw
      (
        t,
        split-append b':' user secret f,
        split-Free b':' secret g,
        read_tags_http-read_tags (split b'-' secret) no_tag,
      )
      (ground arith)

bind-ok :
    {E A B : Type 0} (m : Outcome E A) (f : A → Outcome E B) (b : B)
    → (m >>= f) ≡ ok b
    → (a : A) × (m ≡ ok a) × (f a ≡ ok b)
bind-ok (ok a) f b h = (a, refl, h)
bind-ok (err e) f b h = absurd (cc)
bind-ok panic f b h = absurd (cc)

answer_auth-Vouched :
    (v : Option (Str → Str → Bool)) (u secret user : Str) (t tag : Tag)
    → read_tags_http {E = HttpError} (split b'-' secret) no_tag ≡ ok t
    → answer_auth v u (first_of (split b'-' secret)) t ≡ ok (user, tag)
    → Vouched v user tag
unfolding answer_auth
answer_auth-Vouched none u secret user t tag e h = absurd (cc)
answer_auth-Vouched (some f) u secret user t tag e h =
    elim (Bool-cases (f u (first_of (split b'-' secret)))) [
      | inl a ↦ record {
        validator = f;
        secret = secret;
        given = refl;
        accepted = ground (arith, a, h);
        tags =
            ground
              (arith, a, h, e, read_tags_http-read_tags {E = HttpError} (split b'-' secret) no_tag);
      }
      | inr a ↦ absurd (ground (arith, a, h))
    ]

module _ (v : Option (Str → Str → Bool)) (user : Str) (tag : Tag) where
  parts-Vouched : (parts : List Str) → check_parts v parts ≡ ok (user, tag) → Vouched v user tag
  unfolding check_parts
  parts-Vouched [] h = absurd (cc)
  parts-Vouched (u ∷ []) h = absurd (cc)
  parts-Vouched (u ∷ secret ∷ rest) h =
      let (t, e, k) =
        bind-ok (read_tags_http {E = HttpError} (split b'-' secret) no_tag)
          (answer_auth v u (first_of (split b'-' secret))) (user, tag) h in
      answer_auth-Vouched v u secret user t tag e k

  module _ (decode : Str → Option Str) (url_host : Str → Option Str) where
    decoded-Vouched :
        (o : Option Str) → check_decoded decode url_host v o ≡ ok (user, tag) → Vouched v user tag
    unfolding check_decoded check_credentials
    decoded-Vouched none h = absurd (cc)
    decoded-Vouched (some text) h = parts-Vouched _ h

    words-Vouched :
        (ws : List Str) → check_words decode url_host v ws ≡ ok (user, tag) → Vouched v user tag
    unfolding check_words
    words-Vouched [] h = absurd (cc)
    words-Vouched (a ∷ []) h = absurd (cc)
    words-Vouched (a ∷ b ∷ []) h = decoded-Vouched _ h
    words-Vouched (a ∷ b ∷ c ∷ ws) h = absurd (cc)

    header-Vouched :
        (o : Option Str) → check_header decode url_host v o ≡ ok (user, tag) → Vouched v user tag
    unfolding check_header
    header-Vouched none h = absurd (cc)
    header-Vouched (some value) h = words-Vouched _ h

    basic_auth-Vouched :
        (head : Str) → basic_auth decode url_host v head ≡ ok (user, tag) → Vouched v user tag
    unfolding basic_auth
    basic_auth-Vouched head h = header-Vouched _ h

module _ (decode : Str → Option Str) (url_host : Str → Option Str)
    (v : Option (Str → Str → Bool)) where
  https-Vouched :
      (head method target : Str) (r : HttpRequest)
      → https decode url_host v head method target ≡ ok r
      → Vouched v r.user r.tag
  unfolding https
  https-Vouched head method target r h =
      let ((user, tag), e, k) = bind-ok (basic_auth decode url_host v head) _ r h in
      let seen = basic_auth-Vouched v user tag decode url_host head e in
      let same_user : user ≡ r.user = cc in
      let same_tag : tag ≡ r.tag = cc in
      subst (λ u. Vouched v u r.tag) same_user (subst (Vouched v user) same_tag seen)

  parsed-request :
      (method target url : Str) (user : Str) (tag : Tag) (o : Option Str) (r : HttpRequest)
      → parsed decode url_host method target url (user, tag) o ≡ ok r
      → (user ≡ r.user) × (tag ≡ r.tag)
  unfolding parsed
  parsed-request method target url user tag none r h = absurd (cc)
  parsed-request method target url user tag (some host) r h = (cc, cc)

  http-Vouched :
      (head method target : Str) (r : HttpRequest)
      → http decode url_host v head method target ≡ ok r
      → Vouched v r.user r.tag
  unfolding http
  http-Vouched head method target r h =
      let ((user, tag), e, k) = bind-ok (basic_auth decode url_host v head) _ r h in
      let (url, _, l) = bind-ok (get_http_url head target) _ r k in
      let seen = basic_auth-Vouched v user tag decode url_host head e in
      let (same_user, same_tag) = parsed-request method target url user tag (url_host url) r l in
      subst (λ u. Vouched v u r.tag) same_user (subst (Vouched v user) same_tag seen)

  bad_head-fails : (head : Str) (r : HttpRequest) → bad_head decode url_host head ≢ ok r
  unfolding bad_head
  bad_head-fails head r h = elim (Bool-cases (ltb (length head) 50)) [
    | inl e ↦ ground (arith, e, h)
    | inr e ↦ ground (arith, e, h)
  ]

  words-request :
      (head : Str) (ws : List Str) (r : HttpRequest)
      → by_words decode url_host v head ws ≡ ok r
      → Vouched v r.user r.tag
  unfolding by_words
  words-request head [] r h = absurd (bad_head-fails head r h)
  words-request head (a ∷ []) r h = absurd (bad_head-fails head r h)
  words-request head (method ∷ target ∷ ws) r h = elim (Bool-cases (is_https (to_upper method))) [
    | inl e ↦ https-Vouched head (to_upper method) target r (ground (arith, e, h))
    | inr e ↦ http-Vouched head (to_upper method) target r (ground (arith, e, h))
  ]

  -- Whatever bytes a client sends, a request that NewHTTPRequest returns without an error carries a
  -- name that the validator has accepted with the first dash-separated part of some secret, and the
  -- tags of that secret. Without a validator no request is returned.
  pub new_http_request_safe :
      (head : Str) (r : HttpRequest)
      → new_http_request decode url_host v head ≡ ok r
      → Vouched v r.user r.tag
  unfolding new_http_request
  new_http_request_safe head r h = elim (Bool-cases (mem_byte b'\n' head)) [
    | inl e ↦ words-request head (fields (first_of (split b'\n' head))) r (ground (arith, e, h))
    | inr e ↦ absurd (bad_head-fails head r (ground (arith, e, h)))
  ]
