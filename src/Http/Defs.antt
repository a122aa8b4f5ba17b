-- ===== src/Http/Defs.antt =====
-- The operations of HTTPRequest.
use subnetwork_system_torchl.Prelude.{
  Bool, false, ◌&&◌, ◌||◌, not, List, [], ◌∷◌, ◌++◌, Option, none, some, ltb, length, if◌then◌else◌,
  Outcome, ok, err, panic, ◌>>=◌,
}
use subnetwork_system_torchl.Text.{
  Str, codes, str_eq, split, split_crlf, split_n2, trim, to_upper, to_lower, mem_byte, has_prefix,
  has_suffix, fields,
}
use subnetwork_system_torchl.Tags.{Tag, no_tag, read_tags_http}

pub data HttpError : Type 0 where
  no_header no_host bad_authorization bad_base64 auth_failed bad_line : HttpError

-- What is written to the client before its connection is closed.
unfoldable pub error_reply : HttpError → Str
error_reply no_header =
    codes
      "HTTP/1.1 407 Proxy Authentication Required\r\nProxy-Authenticate: Basic realm=\"Proxy\"\r\nContent-Length: 0\r\n\r\n"
error_reply auth_failed = codes "HTTP/1.1 401 Unauthorized\r\n\r\nUnauthorized"
error_reply _ = []

-- What NewHTTPRequest fills in.
pub record HttpRequest : Type 0 where
  pub method : Str
  pub host_or_url : Str
  pub url : Str
  pub host : Str
  pub user : Str
  pub tag : Tag

header_value : Str → List Str → Option Str
header_value key (name ∷ value ∷ []) =
    if str_eq key (to_upper (trim (codes " ") name)) then some (trim (codes " ") value) else none
header_value key _ = none

in_lines : Str → List Str → Option Str
unfolding header_value
in_lines key [] = none
in_lines key (line ∷ lines) =
    let rest = in_lines key lines in
    elim (header_value key (split_n2 b':' (trim (codes "\r\n ") line))) [
      | some v ↦ some v
      | none ↦ rest
    ]

-- getHeader; none is its error.
unfoldable pub get_header : Str → Str → Option Str
unfolding in_lines
get_header head key = in_lines (to_upper key) (split_crlf head)

abbrev pub is_https : Str → Bool
is_https method = str_eq method (codes "CONNECT")

-- The host that addPortIfNot leaves.
unfoldable pub add_port_if_not : Str → Str → Str
add_port_if_not method host =
    let port = if is_https method then codes ":443" else codes ":80" in
    if (not (has_prefix b'[' host) && not (mem_byte b':' host))
      || (has_prefix b'[' host && has_suffix b']' host)
    then host ++ port
    else host

-- getHTTPURL
unfoldable pub get_http_url : Str → Str → Outcome HttpError Str
get_http_url head host_or_url =
    if not (has_prefix b'/' host_or_url)
    then ok host_or_url
    else elim (get_header head (codes "host")) [
      | none ↦ err no_host
      | some host ↦ ok (codes "http://" ++ (host ++ host_or_url))
    ]

abbrev pub first_of : List Str → Str
first_of [] = []
first_of (p ∷ ps) = p

-- The Validator; none is nil.
abbrev pub validated : Option (Str → Str → Bool) → Str → Str → Bool
validated none user password = false
validated (some v) user password = v user password

unfoldable pub answer_auth :
    Option (Str → Str → Bool) → Str → Str → Tag → Outcome HttpError (Str × Tag)
answer_auth v user password tag =
    if validated v user password then ok (user, tag) else err auth_failed

unfoldable pub check_parts : Option (Str → Str → Bool) → List Str → Outcome HttpError (Str × Tag)
unfolding answer_auth
check_parts v (user ∷ secret ∷ rest) =
    let tags = split b'-' secret in
    read_tags_http tags no_tag >>= λ tag. answer_auth v user (first_of tags) tag
check_parts v _ = panic

-- What BasicAuth does with the decoded text; u[1] and tagArray[i+1] may be out of range.
unfoldable pub check_credentials : Option (Str → Str → Bool) → Str → Outcome HttpError (Str × Tag)
unfolding check_parts
check_credentials v text = check_parts v (split b':' (trim (codes " ") text))

-- `decode` is base64.StdEncoding.DecodeString and `url_host` the Host of url.Parse; none is an error.
module _ (decode : Str → Option Str) (url_host : Str → Option Str) where
  unfoldable pub check_decoded :
      Option (Str → Str → Bool) → Option Str → Outcome HttpError (Str × Tag)
  check_decoded v none = err bad_base64
  check_decoded v (some text) = check_credentials v text

  unfoldable pub check_words : Option (Str → Str → Bool) → List Str → Outcome HttpError (Str × Tag)
  unfolding check_decoded
  check_words v (scheme ∷ word ∷ []) = check_decoded v (decode word)
  check_words v _ = err bad_authorization

  unfoldable pub check_header :
      Option (Str → Str → Bool) → Option Str → Outcome HttpError (Str × Tag)
  unfolding check_words
  check_header v none = err no_header
  check_header v (some authorization) = check_words v (fields authorization)

  unfoldable pub basic_auth : Option (Str → Str → Bool) → Str → Outcome HttpError (Str × Tag)
  unfolding check_header
  basic_auth v head = check_header v (get_header head (codes "Proxy-Authorization"))

  abbrev pub request : Str → Str → Str → Str → Str × Tag → HttpRequest
  request method target url host (user, tag) = record {
    method = method;
    host_or_url = target;
    url = url;
    host = add_port_if_not method host;
    user = user;
    tag = tag;
  }

  -- HTTPS and HTTP. url.Parse returns nil with its error, which u.Host dereferences.
  unfoldable pub parsed : Str → Str → Str → Str × Tag → Option Str → Outcome HttpError HttpRequest
  parsed method target url auth none = panic
  parsed method target url auth (some host) = ok (request method target url host auth)

  unfoldable pub https : Option (Str → Str → Bool) → Str → Str → Str → Outcome HttpError HttpRequest
  https v head method target =
      basic_auth v head >>= λ auth. ok (request method target [] target auth)

  unfoldable pub http : Option (Str → Str → Bool) → Str → Str → Str → Outcome HttpError HttpRequest
  unfolding parsed
  http v head method target = basic_auth v head >>= λ auth.
      get_http_url head target >>= λ url. parsed method target url auth (url_host url)

  -- The error message shows string(req.HeadBuf)[:50].
  unfoldable pub bad_head : Str → Outcome HttpError HttpRequest
  bad_head head = if ltb (length head) 50 then panic else err bad_line

  unfoldable pub by_words :
      Option (Str → Str → Bool) → Str → List Str → Outcome HttpError HttpRequest
  unfolding bad_head
  by_words v head (method ∷ target ∷ rest) =
      let m = to_upper method in if is_https m then https v head m target else http v head m target
  by_words v head _ = bad_head head

  -- NewHTTPRequest, on what the one Read returned.
  unfoldable pub new_http_request : Option (Str → Str → Bool) → Str → Outcome HttpError HttpRequest
  unfolding bad_head by_words
  new_http_request v head =
      let lines = split b'\n' head in
      if mem_byte b'\n' head then by_words v head (fields (first_of lines)) else bad_head head

-- GetBasicAuthUser
user_in : List Str → Str
user_in parts = first_of parts

module _ (decode : Str → Option Str) where
  user_decoded : Option Str → Str
  unfolding user_in
  user_decoded none = []
  user_decoded (some text) = user_in (split_n2 b':' text)

  user_words : List Str → Str
  unfolding user_decoded
  user_words (scheme ∷ word ∷ []) =
      if str_eq (to_lower scheme) (codes "basic") then user_decoded (decode word) else []
  user_words _ = []

  user_header : Option Str → Str
  unfolding user_words
  user_header none = []
  user_header (some value) = user_words (fields value)

  unfoldable pub get_basic_auth_user : Str → Str
  unfolding user_header
  get_basic_auth_user head = user_header (get_header head (codes "Proxy-Authorization"))
