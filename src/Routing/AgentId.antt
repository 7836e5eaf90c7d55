-- ===== src/Routing/AgentId.antt =====
-- pkg/routing/agent_id.go
pub mod Laws
use halfmoon.Base.{
  ℕ, suc, ◌≤◌, Bool, true, false, ◌&&◌, ◌||◌, List, [], ◌∷◌, ltb, leb, ◌==◌, if◌then◌else◌, length,
  take,
}
use halfmoon.Base.Text.{Text, codes, to_lower, trim_space}

-- DefaultAgentID
abbrev pub default_agent_id : Text
default_agent_id = codes "main"

abbrev pub default_account_id : Text
default_account_id = codes "default"

abbrev pub max_agent_id_length : ℕ
max_agent_id_length = 64

-- [a-z0-9]
abbrev pub is_id_start : ℕ → Bool
is_id_start c = (leb b'a' c && leb c b'z') || (leb b'0' c && leb c b'9')

-- [a-z0-9_-]
abbrev pub is_id_char : ℕ → Bool
is_id_char c = is_id_start c || c == b'_' || c == b'-'

unfoldable pub all_id_chars : Text → Bool
all_id_chars [] = true
all_id_chars (c ∷ s) = is_id_char c && all_id_chars s

-- validIDRe
unfoldable pub is_valid_id : Text → Bool
unfolding all_id_chars
is_valid_id [] = false
is_valid_id (c ∷ s) = is_id_start c && all_id_chars s && leb (length s) 63

-- invalidCharsRe.ReplaceAllString(s, "-"); the flag says that a run of invalid characters is open.
unfoldable pub replace_invalid : Bool → Text → Text
replace_invalid in_run [] = []
replace_invalid in_run (c ∷ s) = elim (is_id_char c) [
  | true ↦ c ∷ replace_invalid false s
  | false ↦ let rest = replace_invalid true s in if in_run then rest else b'-' ∷ rest
]

unfoldable pub strip_leading : Text → Text
strip_leading [] = []
strip_leading (c ∷ s) = let rest = strip_leading s in if c == b'-' then rest else c ∷ s

keep_dash : ℕ → Text → Text
keep_dash c [] = if c == b'-' then [] else c ∷ []
keep_dash c (x ∷ xs) = c ∷ x ∷ xs

unfoldable pub strip_trailing : Text → Text
unfolding keep_dash
strip_trailing [] = []
strip_trailing (c ∷ s) = keep_dash c (strip_trailing s)

shorten : Text → Text
shorten s = if ltb max_agent_id_length (length s) then take max_agent_id_length s else s

or_default : Text → Text → Text
or_default d [] = d
or_default d (c ∷ s) = c ∷ s

unfoldable pub sanitize : Text → Text
unfolding replace_invalid strip_leading strip_trailing shorten
sanitize s = shorten (strip_trailing (strip_leading (replace_invalid false s)))

normalize_trimmed : Text → Text → Text
unfolding is_valid_id sanitize or_default
normalize_trimmed d [] = d
normalize_trimmed d (c ∷ s) =
    let low = to_lower (c ∷ s) in if is_valid_id low then low else or_default d (sanitize low)

unfoldable pub normalize_agent_id : Text → Text
unfolding normalize_trimmed
normalize_agent_id id = normalize_trimmed default_agent_id (trim_space id)

unfoldable pub normalize_account_id : Text → Text
unfolding normalize_trimmed
normalize_account_id id = normalize_trimmed default_account_id (trim_space id)
