-- ===== src/CdnRoute/Checks.antt =====
-- cdn_reset.go: the checks of the edge's answer and of the exported link.
use proxy_node_assistant.Text.{
  scan_lines, Text, codes, equal_fold, has_prefix, or_else, replace_crlf, text_eq, to_lower,
  trim_prefix, trim_space,
}
use proxy_node_assistant.Prelude.{
  Bool, List, Option, Result, [], err, false, if◌then◌else◌, is_empty, leb, ltb, none, not, ok,
  refl, some, ℕ, ◌&&◌, ◌||◌, ◌∷◌, ◌≡◌,
}

-- An `http.Response` as the check reads it: the URL of the request that was answered (`none` if it
-- or the request is nil), and `Header.Get`.
pub record Response : Type 0 where
  pub status_code : ℕ
  pub request_url : Option (Text × Text)
  pub header : Text → Text

pub data EdgeError : Type 0 where
  no_response bad_status left_hostname no_ray not_managed wrong_port : EdgeError

abbrev is_at : Text → Option (Text × Text) → Bool
unfolding equal_fold text_eq
is_at domain none = false
is_at domain (some (hostname, port)) = equal_fold hostname domain && text_eq port (codes "8443")

response_checks : Text → Response → Result EdgeError (Unit {0})
unfolding equal_fold text_eq trim_space
response_checks domain r =
    if ltb r.status_code 200 || leb 400 r.status_code
    then err bad_status
    else if not (is_at domain r.request_url)
    then err left_hostname
    else if is_empty (trim_space (r.header (codes "Cf-Ray")))
    then err no_ray
    else if not
        (equal_fold (trim_space (r.header (codes "X-TNA-Managed-Origin"))) (codes "cdn-xhttp-v095"))
    then err not_managed
    else if not (text_eq (trim_space (r.header (codes "X-TNA-Origin-Port"))) (codes "8443"))
    then err wrong_port
    else ok tt

unfoldable pub validate_cdn_edge_response : Option Response → Text → Result EdgeError (Unit {0})
unfolding response_checks
validate_cdn_edge_response none domain = err no_response
validate_cdn_edge_response (some r) domain = response_checks domain r

-- `firstVLESSLink`: a line that is a link, or the value of an XHTTP_LINK field.
link_of : Text → Option Text
unfolding trim_space to_lower has_prefix trim_prefix
link_of line =
    if has_prefix (codes "vless://") (to_lower line)
    then some line
    else if has_prefix (codes "XHTTP_LINK=") line
        && has_prefix (codes "vless://")
            (to_lower (trim_space (trim_prefix (codes "XHTTP_LINK=") line)))
    then some (trim_space (trim_prefix (codes "XHTTP_LINK=") line))
    else none

first_link : List Text → Text
unfolding trim_space link_of
first_link [] = []
first_link (line ∷ lines) = let rest = first_link lines in or_else rest (link_of (trim_space line))

unfoldable pub first_vless_link : Text → Text
unfolding first_link link_of replace_crlf scan_lines
first_vless_link output = first_link (scan_lines (replace_crlf output))

-- A `*url.URL` as the check reads it; `user` is the username, `none` if there is no user.
pub record Url : Type 0 where
  pub scheme : Text
  pub hostname : Text
  pub port : Text
  pub user : Option Text
  pub query : Text → Text

pub data LinkError : Type 0 where
  not_vless wrong_host not_xhttp no_tls sni_mismatch host_mismatch no_path no_identity : LinkError

abbrev pub or_empty : Text → Text → Bool
or_empty value domain = is_empty value || equal_fold value domain

abbrev has_identity : Option Text → Bool
unfolding trim_space
has_identity none = false
has_identity (some user) = not (is_empty (trim_space user))

url_checks : Text → Url → Result LinkError (Unit {0})
unfolding equal_fold text_eq has_prefix trim_space
url_checks domain u =
    if not (equal_fold u.scheme (codes "vless"))
    then err not_vless
    else if not (equal_fold u.hostname domain) || not (text_eq u.port (codes "8443"))
    then err wrong_host
    else if not (equal_fold (u.query (codes "type")) (codes "xhttp"))
    then err not_xhttp
    else if not (equal_fold (u.query (codes "security")) (codes "tls"))
    then err no_tls
    else if not (or_empty (u.query (codes "sni")) domain)
    then err sni_mismatch
    else if not (or_empty (u.query (codes "host")) domain)
    then err host_mismatch
    else if not (has_prefix (codes "/") (u.query (codes "path")))
    then err no_path
    else if not (has_identity u.user)
    then err no_identity
    else ok tt

checked_url : Text → Option Url → Result LinkError (Unit {0})
unfolding url_checks
checked_url domain none = err not_vless
checked_url domain (some u) = url_checks domain u

-- `parse_url` is net/url's Parse.
unfoldable pub validate_cdn_share_link :
    (Text → Option Url) → Text → Text → Result LinkError (Unit {0})
unfolding checked_url url_checks trim_space
validate_cdn_share_link parse_url raw domain = checked_url domain (parse_url (trim_space raw))

link_test :
    first_vless_link (codes "log vless://x\r\n XHTTP_LINK= VLESS://a \n") ≡ codes "VLESS://a"
unfolding first_vless_link
link_test = refl
