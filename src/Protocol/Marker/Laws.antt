-- ===== src/Protocol/Marker/Laws.antt =====
-- What extractMarkedBlock returns.
use proxy_node_assistant.Prelude.{
  ap, if_of_false, append_assoc, arith, err, is_empty, ok, true, All, List, [], append-nil, false,
  map, refl, ◌++◌, ◌∙◌, ◌∷◌, ◌≡◌,
}
use proxy_node_assistant.Protocol.Ansi.{strip_ansi}
use proxy_node_assistant.Text.{join, lines_of, text_eq_refl, Text, text_eq, trim_cr, trim_space}
use proxy_node_assistant.Protocol.Marker.{
  not_found, Scan, start, scan_line, scan, block_of, extract_marked_block,
}

-- The text by which a line is compared with the markers.
abbrev pub marker_of : Text → Text
marker_of raw = trim_space (trim_cr raw)

-- No line of the list is a marker.
abbrev pub IsPlain : Text → Text → List Text → Type 0
IsPlain begin finish =
    All (λ raw. (text_eq (marker_of raw) begin ≡ false) × (text_eq (marker_of raw) finish ≡ false))

module _ (begin finish : Text) where
  scan_noise :
      (noise rest : List Text)
      → IsPlain begin finish noise
      → scan begin finish (noise ++ rest) start ≡ scan begin finish rest start
  unfolding scan
  scan_noise [] rest h = refl
  scan_noise (l ∷ ls) rest ((b, f), h) = rw b (scan_noise ls rest h)

  scan_body :
      (body rest : List Text) (s : Scan)
      → s.found_end ≡ false
      → s.depth ≡ 1
      → IsPlain begin finish body
      → scan begin finish (body ++ rest) s
        ≡ scan begin finish rest (record s { payload = s.payload ++ map trim_cr body })
  unfolding scan
  scan_body [] rest s n d h = rw append-nil
  scan_body (l ∷ ls) rest s n d ((b, f), h) =
      rw (n, b, f, d)
        (scan_body ls rest
            (record { depth = 1; found_end = false; payload = s.payload ++ trim_cr l ∷ [] }) refl
            refl h
          ∙ rw append_assoc)

  scan_found : (rest : List Text) (s : Scan) → s.found_end ≡ true → scan begin finish rest s ≡ s
  unfolding scan
  scan_found [] s h = refl
  scan_found (l ∷ ls) s h = rw h

  -- The loop stops at the line behind the body, with the body as its payload.
  scan_block :
      (noise body rest : List Text) (b f : Text)
      → text_eq finish begin ≡ false
      → marker_of b ≡ begin
      → marker_of f ≡ finish
      → IsPlain begin finish noise
      → IsPlain begin finish body
      → scan begin finish (noise ++ (b ∷ (body ++ f ∷ rest))) start
        ≡ record { depth = 0; found_end = true; payload = map trim_cr body }
  unfolding scan
  scan_block noise body rest b f ne mb mf hn hb =
      scan_noise noise _ hn
      ∙ rw (mb, text_eq_refl begin)
          (scan_body body (f ∷ rest) (record { depth = 1; found_end = false; payload = [] }) refl
              refl hb
            ∙ rw (mf, ne, text_eq_refl finish)
                (scan_found rest
                  (record { depth = 0; found_end = true; payload = map trim_cr body }) refl))

  scan_line_open :
      (line trimmed : Text) (s : Scan)
      → s.found_end ≡ false
      → text_eq trimmed finish ≡ false
      → (scan_line begin finish line trimmed s).found_end ≡ false
  unfolding scan_line
  scan_line_open line trimmed s n f = ground arith

  scan_unclosed :
      (ls : List Text) (s : Scan)
      → s.found_end ≡ false
      → All (λ raw. text_eq (marker_of raw) finish ≡ false) ls
      → (scan begin finish ls s).found_end ≡ false
  unfolding scan
  scan_unclosed [] s n h = n
  scan_unclosed (l ∷ ls) s n (f, h) =
      ap (λ (t : Scan). t.found_end) (if_of_false _ _ n)
      ∙ scan_unclosed ls (scan_line begin finish (trim_cr l) (marker_of l) s)
          (scan_line_open (trim_cr l) (marker_of l) s n f) h

-- Output in which some lines come before the begin marker, and a body that holds no marker stands
-- between the two markers, gives exactly that body, trimmed: for a body with something in it, if
-- the markers differ. What follows the end marker is not read.
pub extract_marked_block_lem :
    (stdout begin finish : Text) (noise body rest : List Text) (b f : Text)
    → lines_of (strip_ansi stdout) ≡ noise ++ (b ∷ (body ++ f ∷ rest))
    → text_eq finish begin ≡ false
    → marker_of b ≡ begin
    → marker_of f ≡ finish
    → IsPlain begin finish noise
    → IsPlain begin finish body
    → is_empty (trim_space (join b'\n' (map trim_cr body))) ≡ false
    → extract_marked_block stdout begin finish ≡ ok (trim_space (join b'\n' (map trim_cr body)))
unfolding extract_marked_block block_of
extract_marked_block_lem stdout begin finish noise body rest b f e ne mb mf hn hb some_text =
    rw (e, scan_block begin finish noise body rest b f ne mb mf hn hb, some_text)

-- Output that was cut off before its end marker is refused, whatever else it holds.
pub extract_marked_block_unclosed :
    (stdout begin finish : Text)
    → All (λ raw. text_eq (marker_of raw) finish ≡ false) (lines_of (strip_ansi stdout))
    → extract_marked_block stdout begin finish ≡ err not_found
unfolding extract_marked_block block_of
extract_marked_block_unclosed stdout begin finish h =
    ground (arith, scan_unclosed begin finish (lines_of (strip_ansi stdout)) start refl h)
