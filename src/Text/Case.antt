-- ===== src/Text/Case.antt =====
-- `strings.ToUpper`, `strings.ToLower`, `strings.EqualFold`. The letters outside ASCII that map into
-- ASCII are treated as Go does; the others keep their code, since the program compares the result
-- with ASCII texts only.
use proxy_node_assistant.Prelude.{ℕ, ◌+◌, ◌-◌, ◌≡◌, refl, Bool, map, ◌==◌, between, if◌then◌else◌}
use proxy_node_assistant.Text.Basic.{Text, codes, text_eq}

unfoldable pub upper : ℕ → ℕ
upper c =
    if between b'a' b'z' c
    then c - 32
    else if c == 0x131
    then b'I'
    else if c == 0x17f
    then b'S'
    else c

unfoldable pub lower : ℕ → ℕ
lower c =
    if between b'A' b'Z' c
    then c + 32
    else if c == 0x130
    then b'i'
    else if c == 0x212a
    then b'k'
    else c

-- One representative of the letters that Go's simple folding identifies.
unfoldable pub fold : ℕ → ℕ
fold c =
    if between b'A' b'Z' c
    then c + 32
    else if c == 0x17f
    then b's'
    else if c == 0x212a
    then b'k'
    else c

unfoldable pub to_upper : Text → Text
unfolding upper
to_upper = map upper

unfoldable pub to_lower : Text → Text
unfolding lower
to_lower = map lower

unfoldable pub equal_fold : Text → Text → Bool
unfolding fold text_eq
equal_fold a b = text_eq (map fold a) (map fold b)

upper_test : to_upper (codes "aZ_9") ≡ codes "AZ_9"
unfolding to_upper
upper_test = refl
