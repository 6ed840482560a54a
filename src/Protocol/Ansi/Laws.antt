-- ===== src/Protocol/Ansi/Laws.antt =====
-- What stripANSI leaves alone.
use proxy_node_assistant.Prelude.{[], ap, false, or-eq-false, refl, ℕ, ◌==◌, ◌∷◌, ◌≡◌}
use proxy_node_assistant.Text.{Text, has_code}
use proxy_node_assistant.Protocol.Ansi.{ansi_match, strip_ansi}

ansi_match_no_escape : (c : ℕ) (cs : Text) → (c == 0x1b) ≡ false → ansi_match (c ∷ cs) ≡ 0
unfolding ansi_match
ansi_match_no_escape c [] h = refl
ansi_match_no_escape c (d ∷ cs) h = rw h

-- A text without an escape character is not changed.
pub strip_ansi_no_escape : (s : Text) → has_code 0x1b s ≡ false → strip_ansi s ≡ s
unfolding strip_ansi has_code
strip_ansi_no_escape [] h = refl
strip_ansi_no_escape (c ∷ cs) h =
    let (here, later) = or-eq-false (c == 0x1b) _ h in
    rw (ansi_match_no_escape c cs here) (ap (◌∷◌ c) (strip_ansi_no_escape cs later))
