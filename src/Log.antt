-- ===== src/Log.antt =====
-- log/log.go, log/loginfo.go: the levels, and what a logger does with a message. The texts that `fmt`
-- makes and the clock are parameters.
use silvernode_go.Common.{
  ◌≡◌, refl, [], ◌∷◌, ◌++◌, if◌then◌else◌, ℤ, pos, ltb_ℤ, ◌==◌, Bytes, nat_eq, bytes_eq,
}
use silvernode_go.Strings.{split}
use silvernode_go.Nets.Connect.{first_part}
use silvernode_go.Buffutil.Value.{int_beq}

-- "DEBUG", "INFO", "WARN", "WARNING", "ERROR" and "FATAL"
abbrev pub debug_text : Bytes
debug_text = b'D' ∷ b'E' ∷ b'B' ∷ b'U' ∷ b'G' ∷ []

abbrev pub info_text : Bytes
info_text = b'I' ∷ b'N' ∷ b'F' ∷ b'O' ∷ []

abbrev pub warn_text : Bytes
warn_text = b'W' ∷ b'A' ∷ b'R' ∷ b'N' ∷ []

abbrev pub warning_text : Bytes
warning_text = b'W' ∷ b'A' ∷ b'R' ∷ b'N' ∷ b'I' ∷ b'N' ∷ b'G' ∷ []

abbrev pub error_text : Bytes
error_text = b'E' ∷ b'R' ∷ b'R' ∷ b'O' ∷ b'R' ∷ []

abbrev pub fatal_text : Bytes
fatal_text = b'F' ∷ b'A' ∷ b'T' ∷ b'A' ∷ b'L' ∷ []

unfoldable pub level_to_string : ℤ → Bytes
level_to_string lv =
    if int_beq lv (pos 0)
    then debug_text
    else if int_beq lv (pos 1)
    then info_text
    else if int_beq lv (pos 2)
    then warn_text
    else if int_beq lv (pos 3)
    then error_text
    else fatal_text

unfoldable pub level_named : Bytes → ℤ
level_named text =
    if text == debug_text
    then pos 0
    else if text == info_text
    then pos 1
    else if text == warning_text
    then pos 2
    else if text == error_text
    then pos 3
    else if text == fatal_text
    then pos 4
    else pos 0

-- `StringToLevel`; `strings.Split` never gives an empty list.
unfoldable pub string_to_level : Bytes → ℤ
unfolding level_named split
string_to_level lv = level_named (first_part (split 45 lv))

pub record LogInfo : Type 0 where
  pub level : ℤ
  pub created : Bytes
  pub source : Bytes
  pub message : Bytes
  pub category : Bytes

abbrev pub in_brackets : Bytes → Bytes
in_brackets text = 91 ∷ (text ++ (93 ∷ 32 ∷ []))

abbrev pub with_source : Bytes → Bytes
with_source [] = []
with_source (c ∷ cs) = 40 ∷ ((c ∷ cs) ++ (41 ∷ 32 ∷ []))

unfoldable pub format_string : LogInfo → Bytes
unfolding level_to_string
format_string l =
    in_brackets l.created
    ++ (in_brackets l.category
        ++ (in_brackets (level_to_string l.level) ++ (with_source l.source ++ l.message)))

-- What a logger does: nothing, a line on the console, or a call of its writer
pub data Logged : Type 0 where
  skipped : Logged
  printed : LogInfo → Logged
  written : LogInfo → Logged

pub record Logger : Type 0 where
  pub category : Bytes
  pub level : ℤ

abbrev pub info_of : Logger → ℤ → Bytes → Bytes → Bytes → LogInfo
info_of l lvl msg src now = record {
  level = lvl;
  created = now;
  source = src;
  message = msg;
  category = l.category;
}

-- `doLog` of a message's text, with its source and the time
unfoldable pub do_log : Logger → ℤ → Bytes → Bytes → Bytes → Logged
do_log l lvl msg src now =
    if ltb_ℤ lvl l.level
    then skipped
    else if ltb_ℤ lvl (pos 1)
    then printed (info_of l lvl msg src now)
    else written (info_of l lvl msg src now)

-- The levels 0, 1, 3 and 4 are read back from their names, and the level 2 is read back as 0: its name
-- is "WARN", and "WARNING" is expected.
levels :
    (string_to_level (level_to_string (pos 0)) ≡ pos 0)
    × (string_to_level (level_to_string (pos 1)) ≡ pos 1)
    × (string_to_level (level_to_string (pos 2)) ≡ pos 0)
    × (string_to_level (level_to_string (pos 3)) ≡ pos 3)
    × (string_to_level (level_to_string (pos 4)) ≡ pos 4)
unfolding string_to_level level_to_string level_named split
levels = (refl, refl, refl, refl, refl)
