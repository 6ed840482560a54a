-- ===== src/Handoff/Cleaned.antt =====
-- What normalizeHandoffLegacy of handoff_normalize.go keeps.
use proxy_node_assistant.Handoff.{is_dropped, keep_lines, normalize_handoff_legacy}
use proxy_node_assistant.Prelude.{
  Bool, Bool-cases, List, [], any, arith, false, if◌then◌else◌, inl, inr, not, true, ◌&&◌, ◌||◌,
  ◌∙◌, ◌∷◌, ◌≡◌,
}
use proxy_node_assistant.Text.{Text, join, replace_crlf, split, text_eq, trim_cr, trim_space}

-- A list of lines without some lines that are dropped, in the order of before.
pub data IsCleaned (regenerated : List Text) : List Text → List Text → Type 0 where
  cleaned : IsCleaned regenerated [] []
  kept :
      (raw : Text) {lines rest : List Text}
      → is_dropped regenerated (trim_cr raw) ≡ false
      → IsCleaned regenerated lines rest
      → IsCleaned regenerated (raw ∷ lines) (trim_cr raw ∷ rest)
  dropped :
      (raw : Text) {lines rest : List Text}
      → is_dropped regenerated (trim_cr raw) ≡ true
      → IsCleaned regenerated lines rest
      → IsCleaned regenerated (raw ∷ lines) rest

keep_lines-IsCleaned :
    (regenerated lines : List Text) (changed : Bool)
    → IsCleaned regenerated lines (keep_lines regenerated lines changed).0
unfolding keep_lines
keep_lines-IsCleaned regenerated [] changed = cleaned
keep_lines-IsCleaned regenerated (raw ∷ lines) changed =
    elim (Bool-cases (is_dropped regenerated (trim_cr raw))) [
      | inl e ↦ rw e (dropped raw e (keep_lines-IsCleaned regenerated lines (changed || true)))
      | inr e ↦ rw e (kept raw e (keep_lines-IsCleaned regenerated lines (changed || false)))
    ]

keep_lines-changed :
    (regenerated lines : List Text) (changed : Bool)
    → (keep_lines regenerated lines changed).1
      ≡ (changed || any (λ raw. is_dropped regenerated (trim_cr raw)) lines)
unfolding keep_lines
keep_lines-changed regenerated [] changed = ground arith
keep_lines-changed regenerated (raw ∷ lines) changed =
    keep_lines-changed regenerated lines (changed || is_dropped regenerated (trim_cr raw))
    ∙ ground arith

-- An earlier handoff that has no line to drop and no carriage return before a newline stays as it is,
-- byte for byte. From any other one exactly the lines to drop are taken out, and the ends are trimmed.
pub normalize_handoff_legacy-IsCleaned :
    (legacy : Text) (regenerated : List Text)
    → (kept_lines : List Text) × IsCleaned regenerated
        (split b'\n' (replace_crlf legacy))
        kept_lines
      × (normalize_handoff_legacy legacy regenerated ≡ (
          if text_eq (replace_crlf legacy) legacy
            && not (
                any
                  (λ raw. is_dropped regenerated (trim_cr raw))
                  (split b'\n' (replace_crlf legacy)))
          then legacy
          else trim_space (join b'\n' kept_lines)))
unfolding normalize_handoff_legacy
normalize_handoff_legacy-IsCleaned legacy regenerated =
    let lines = split b'\n' (replace_crlf legacy) in
    let run = keep_lines regenerated lines (not (text_eq (replace_crlf legacy) legacy)) in
    let changes =
      keep_lines-changed regenerated lines (not (text_eq (replace_crlf legacy) legacy)) in
    (run.0, keep_lines-IsCleaned regenerated lines _, rw changes (ground arith))
