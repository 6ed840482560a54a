-- ===== src/CdnRoute/Command.antt =====
-- cdn_reset.go: the paths and commands of a change of the route.
use proxy_node_assistant.Plan.Identity.{valid_domain}
use proxy_node_assistant.Plan.Types.{RouteMode}
use proxy_node_assistant.Plan.Validate.{is_dual, is_orange}
use proxy_node_assistant.Prelude.{
  List, Option, Result, [], err, if◌then◌else◌, is_empty, ltb, none, not, ok, refl, some, ℕ, ◌%◌,
  ◌&&◌, ◌*◌, ◌++◌, ◌+◌, ◌-◌, ◌/◌, ◌==◌, ◌||◌, ◌∷◌, ◌≡◌,
}
use proxy_node_assistant.Text.{
  Text, codes, contains_any, has_prefix, has_suffix, text_eq, trim_prefix,
}
use proxy_node_assistant.Transaction.{remote_root, sh_quote}

abbrev pub cdn_route_input_dir : Text
cdn_route_input_dir = codes "/root/.config/proxy-node-assistant/runtime-input"

abbrev pub one_run_input : Text
one_run_input = codes "/tmp/proxy-node-assistant-auto-input-"

abbrev hex_digit : ℕ → ℕ
hex_digit n = if ltb n 10 then b'0' + n else b'a' + (n - 10)

-- `hex.EncodeToString`
unfoldable pub hex_of : List ℕ → Text
hex_of [] = []
hex_of (n ∷ ns) = hex_digit (n / 16) ∷ hex_digit (n % 16) ∷ hex_of ns

-- `randomOneRunInputPath`, on the bytes of `rand.Read`.
unfoldable pub random_one_run_input_path : List ℕ → Text
unfolding hex_of
random_one_run_input_path raw = one_run_input ++ hex_of raw

pub data PathError : Type 0 where
  no_random unsafe_name unsafe_core_path unsafe_cdn_path invalid_mode invalid_ipv4 : PathError

unfoldable pub random_cdn_route_input_path : Option (List ℕ) → Result PathError Text
unfolding random_one_run_input_path trim_prefix text_eq contains_any
random_cdn_route_input_path none = err no_random
random_cdn_route_input_path (some raw) =
    let path = random_one_run_input_path raw in
    let token = trim_prefix one_run_input path in
    if text_eq token path || is_empty token || contains_any (codes "/\\\r\n") token
    then err unsafe_name
    else ok (cdn_route_input_dir ++ codes "/cdn-route-" ++ token ++ codes ".env")

abbrev base64_digit : ℕ → ℕ
base64_digit n =
    if ltb n 26
    then b'A' + n
    else if ltb n 52
    then b'a' + (n - 26)
    else if ltb n 62
    then b'0' + (n - 52)
    else if n == 62
    then b'+'
    else b'/'

-- `base64.StdEncoding.EncodeToString`, on bytes.
unfoldable pub base64_of : List ℕ → Text
base64_of [] = []
base64_of (a ∷ []) = base64_digit (a / 4) ∷ base64_digit (a % 4 * 16) ∷ codes "=="
base64_of (a ∷ b ∷ []) =
    base64_digit (a / 4)
    ∷ base64_digit (a % 4 * 16 + b / 16)
    ∷ base64_digit (b % 16 * 4)
    ∷ codes "="
base64_of (a ∷ b ∷ c ∷ rest) =
    base64_digit (a / 4)
    ∷ base64_digit (a % 4 * 16 + b / 16)
    ∷ base64_digit (b % 16 * 4 + c / 64)
    ∷ base64_digit (c % 64)
    ∷ base64_of rest

unfoldable pub route_mode_text : RouteMode → Text
route_mode_text RouteMode.keep = codes "keep"
route_mode_text RouteMode.gray = codes "gray"
route_mode_text RouteMode.orange = codes "orange"
route_mode_text RouteMode.dual = codes "dual"
route_mode_text (RouteMode.unknown t) = t

-- `net.ParseIP` followed by `To4` and `String`; `none` is no IPv4 address.
abbrev pub AddressParser : Type 0
AddressParser = Text → Option Text

-- The shell text, all of whose variable parts are quoted.
unfoldable pub copy_command : Text → Text → RouteMode → Text → Text
unfolding sh_quote route_mode_text base64_of
copy_command source destination mode address =
    codes "set -Eeuo pipefail; umask 077; case "
    ++ sh_quote source
    ++ codes " in /tmp/proxy-node-assistant-auto-input-*) ;; *) exit 143;; esac; [ -f "
    ++ sh_quote source
    ++ codes " ] && [ ! -L "
    ++ sh_quote source
    ++ codes " ] && [ \"$(stat -c '%u:%a' "
    ++ sh_quote source
    ++ codes ")\" = 0:600 ]; install -d -m 700 "
    ++ sh_quote cdn_route_input_dir
    ++ codes "; test ! -e "
    ++ sh_quote destination
    ++ codes "; { printf '%s\\n' "
    ++ sh_quote (codes "TNA_CDN_ROUTE_INPUT_VERSION=1")
    ++ codes " "
    ++ sh_quote (codes "ROUTE_MODE_B64=" ++ base64_of (route_mode_text mode))
    ++ codes " "
    ++ sh_quote (codes "PUBLIC_IPV4_B64=" ++ base64_of address)
    ++ codes
        "; awk -F= '$1 == \"ORANGE_DOMAIN_B64\" || $1 == \"ORANGE_EMAIL_B64\" || $1 == \"GRAY_DOMAIN_B64\" {print}' "
    ++ sh_quote source
    ++ codes "; } | install -m 600 /dev/stdin "
    ++ sh_quote destination

abbrev pub with_address : Text → Text → RouteMode → Option Text → Result PathError Text
with_address source destination mode none = err invalid_ipv4
with_address source destination mode (some address) =
    ok (copy_command source destination mode address)

unfoldable pub build_cdn_route_input_copy_command :
    AddressParser → Text → Text → RouteMode → Text → Result PathError Text
build_cdn_route_input_copy_command parse_ipv4 source destination mode public_ip =
    if not (has_prefix one_run_input source) || contains_any (codes "\r\n") source
    then err unsafe_core_path
    else if not (has_prefix (cdn_route_input_dir ++ codes "/cdn-route-") destination)
        || not (has_suffix (codes ".env") destination)
        || contains_any (codes "\r\n") destination
    then err unsafe_cdn_path
    else if not (is_orange mode) && not (is_dual mode)
    then err invalid_mode
    else with_address source destination mode (parse_ipv4 public_ip)

pub data ActionError : Type 0 where
  no_gray_domain unsupported_mode : ActionError

abbrev pub script : Text → Text
script arguments = codes "bash " ++ remote_root ++ codes "/linux/" ++ arguments

unfoldable pub cdn_route_action : RouteMode → Text → Result ActionError Text
cdn_route_action RouteMode.keep domain = ok []
cdn_route_action RouteMode.gray domain =
    if not (valid_domain domain)
    then err no_gray_domain
    else ok (script (codes "28-topology-reconcile.sh --to-gray " ++ sh_quote domain))
cdn_route_action RouteMode.orange domain = ok (codes "staged")
cdn_route_action RouteMode.dual domain = ok (codes "staged")
cdn_route_action (RouteMode.unknown _) domain = err unsupported_mode

encoding_tests :
    (base64_of (codes "dual") ≡ codes "ZHVhbA==")
    × (random_cdn_route_input_path (some (0x0a ∷ 0xf1 ∷ []))
        ≡ ok (codes "/root/.config/proxy-node-assistant/runtime-input/cdn-route-0af1.env"))
unfolding base64_of random_cdn_route_input_path
encoding_tests = (refl, refl)
