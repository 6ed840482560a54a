-- ===== src/Examples/Handoffs.antt =====
-- The theorem on the protocol fields of a handoff, at a concrete handoff.
use proxy_node_assistant.Text.{has_suffix, text_eq, trim_space, lines_of, Fields, Text, codes, find}
use proxy_node_assistant.Handoff.Fallbacks.{
  candidate, candidate_of, is_handoff_protocol_key, valid_handoff_protocol_value, UrlParser,
  merge_handoff_protocol_fallbacks,
}
use proxy_node_assistant.Handoff.Fallbacks.Laws.{find-merge_handoff_protocol_fallbacks}
use proxy_node_assistant.Prelude.{Bool, [], false, none, some, ◌∷◌, ◌≡◌}

abbrev no_url : UrlParser
no_url s = none

abbrev no_ip : Text → Bool
no_ip s = false

abbrev port_key : Text
port_key = codes "SS2022_PORT"

-- An archived handoff with a port, and a current one with a placeholder.
abbrev two_handoffs : Text
two_handoffs = codes "SS2022_PORT=8388\r\nSS2022_PORT=UNKNOWN\n"

abbrev current_fields : Fields
current_fields = (port_key, codes "UNKNOWN") ∷ []

find-merge_handoff_protocol_fallbacks_example :
    find port_key (merge_handoff_protocol_fallbacks no_url no_ip two_handoffs current_fields)
    ≡ some (codes "8388")
unfolding valid_handoff_protocol_value find lines_of candidate candidate_of text_eq trim_space
    has_suffix is_handoff_protocol_key
find-merge_handoff_protocol_fallbacks_example =
    find-merge_handoff_protocol_fallbacks no_url no_ip port_key two_handoffs current_fields
