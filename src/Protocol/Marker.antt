-- ===== src/Protocol/Marker.antt =====
-- extractMarkedBlock and extractMarkerBlockCurrentOrLegacy of parsers.go.
pub mod Laws
use proxy_node_assistant.Prelude.{
  ◌||◌, Bool, List, Result, [], err, false, if◌then◌else◌, is_empty, ltb, not, ok, ℕ, ◌&&◌, ◌++◌,
  ◌+◌, ◌-◌, ◌==◌, ◌∷◌,
}
use proxy_node_assistant.Protocol.Ansi.{strip_ansi}
use proxy_node_assistant.Text.{Text, join, lines_of, text_eq, trim_cr, trim_space}

pub data MarkerError : Type 0 where
  not_found empty_block : MarkerError

-- The variables of the loop.
pub record Scan : Type 0 where
  pub depth : ℕ
  pub found_end : Bool
  pub payload : List Text

abbrev pub start : Scan
start = record { depth = 0; found_end = false; payload = [] }

module _ (begin finish : Text) where
  -- One round of the loop, on a line without its carriage return and on the trimmed line.
  unfoldable pub scan_line : Text → Text → Scan → Scan
  unfolding text_eq
  scan_line line trimmed s =
      if text_eq trimmed begin
      then record s { depth = s.depth + 1 }
      else if ltb 0 s.depth && text_eq trimmed finish
      then record s { depth = s.depth - 1; found_end = s.depth - 1 == 0 }
      else if ltb 0 s.depth
      then record s { payload = s.payload ++ line ∷ [] }
      else s

  -- The loop, which breaks once the end marker of depth 1 was read.
  unfoldable pub scan : List Text → Scan → Scan
  unfolding scan_line trim_cr trim_space
  scan [] s = s
  scan (raw ∷ rest) s =
      let line = trim_cr raw in
      let next = scan_line line (trim_space line) s in if s.found_end then s else scan rest next

unfoldable pub block_of : Scan → Result MarkerError Text
unfolding trim_space join
block_of s =
    if not (s.depth == 0) || not s.found_end
    then err not_found
    else let result = trim_space (join b'\n' s.payload) in
      if is_empty result then err empty_block else ok result

unfoldable pub extract_marked_block : Text → Text → Text → Result MarkerError Text
unfolding lines_of strip_ansi scan block_of
extract_marked_block stdout begin finish =
    block_of (scan begin finish (lines_of (strip_ansi stdout)) start)

-- The error is that of the current markers when neither pair is found.
abbrev or_legacy : Result MarkerError Text → Result MarkerError Text → Result MarkerError Text
or_legacy (ok payload) legacy = ok payload
or_legacy (err e) (ok payload) = ok payload
or_legacy (err e) (err _) = err e

unfoldable pub extract_marker_block_current_or_legacy :
    Text → Text → Text → Text → Text → Result MarkerError Text
unfolding extract_marked_block
extract_marker_block_current_or_legacy stdout begin finish legacy_begin legacy_end =
    or_legacy (extract_marked_block stdout begin finish)
      (extract_marked_block stdout legacy_begin legacy_end)
