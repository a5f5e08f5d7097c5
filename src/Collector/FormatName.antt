-- ===== src/Collector/FormatName.antt =====
-- internal/cmd/operator-sdk/generate/internal/relatedimages.go: formatName. The names of environment
-- variables are ASCII, and so is what `strings.ToLower` does here.
use Prim.Native.Char.{Char, code}
use operator_sdk.Base.{ℕ, String, Option, none, some, List, [], ◌∷◌, nat_beq, if◌then◌else◌}

-- The small letter of each capital.
abbrev small_letters : List (ℕ × Char)
small_letters =
    (b'A', "a")
    ∷ (b'B', "b")
    ∷ (b'C', "c")
    ∷ (b'D', "d")
    ∷ (b'E', "e")
    ∷ (b'F', "f")
    ∷ (b'G', "g")
    ∷ (b'H', "h")
    ∷ (b'I', "i")
    ∷ (b'J', "j")
    ∷ (b'K', "k")
    ∷ (b'L', "l")
    ∷ (b'M', "m")
    ∷ (b'N', "n")
    ∷ (b'O', "o")
    ∷ (b'P', "p")
    ∷ (b'Q', "q")
    ∷ (b'R', "r")
    ∷ (b'S', "s")
    ∷ (b'T', "t")
    ∷ (b'U', "u")
    ∷ (b'V', "v")
    ∷ (b'W', "w")
    ∷ (b'X', "x")
    ∷ (b'Y', "y")
    ∷ (b'Z', "z")
    ∷ []

unfoldable pub letter_for : List (ℕ × Char) → Char → Char
letter_for [] c = c
letter_for ((n, d) ∷ table) c =
    let rest = letter_for table c in if nat_beq (code c) n then d else rest

-- `strings.ToLower`
unfoldable pub lower_name : String → String
unfolding letter_for
lower_name String.[] = ""
lower_name (String.◌∷◌ c s) = String.◌∷◌ (letter_for small_letters c) (lower_name s)

-- `strings.Replace(s, "_", "-", -1)`
unfoldable pub dashes_for_underscores : String → String
dashes_for_underscores String.[] = ""
dashes_for_underscores (String.◌∷◌ c s) =
    let rest = dashes_for_underscores s in
    if nat_beq (code c) b'_' then String.◌∷◌ "-" rest else String.◌∷◌ c rest

-- What follows a prefix, if the text has it.
unfoldable pub after_prefix : String → String → Option String
after_prefix String.[] s = some s
after_prefix (String.◌∷◌ p ps) String.[] = none
after_prefix (String.◌∷◌ p ps) (String.◌∷◌ c s) =
    let rest = after_prefix ps s in if nat_beq (code p) (code c) then rest else none

-- `strings.TrimPrefix`
unfoldable pub trim_name_prefix : String → String → String
unfolding after_prefix
trim_name_prefix p s = elim (after_prefix p s) [ none ↦ s | some rest ↦ rest ]

abbrev pub related_image_prefix : String
related_image_prefix = "RELATED_IMAGE_"

-- `formatName`
unfoldable pub format_name : String → String
unfolding lower_name dashes_for_underscores trim_name_prefix
format_name name = lower_name (dashes_for_underscores (trim_name_prefix related_image_prefix name))
