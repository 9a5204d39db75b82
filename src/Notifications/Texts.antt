-- ===== src/Notifications/Texts.antt =====
-- What eks-pods/notification-svc/src/recipients.py uses of Python's texts.
use Prim.Native.String.{String}
use Prim.Native.String as Text
use Prim.Native.Char.{Char, code}
use bookflow_ai_apps.Prelude.{
  ℕ, Bool, true, false, ◌&&◌, ◌||◌, List, [], ◌∷◌, ◌==◌, leb, if◌then◌else◌,
}

-- `str.isspace`
abbrev between : ℕ → ℕ → ℕ → Bool
between a b n = leb a n && leb n b

abbrev is_space_code : ℕ → Bool
is_space_code n =
    between 9 13 n
    || between 28 32 n
    || n == 133
    || n == 160
    || n == 5760
    || between 8192 8202 n
    || between 8232 8233 n
    || n == 8239
    || n == 8287
    || n == 12288

abbrev pub is_empty : String → Bool
is_empty Text.[] = true
is_empty (Text.◌∷◌ c s) = false

-- `str.strip` and `str.split(",")`
unfoldable pub lstrip : String → String
lstrip Text.[] = Text.[]
lstrip (Text.◌∷◌ c s) = let rest = lstrip s in if is_space_code (code c) then rest else Text.◌∷◌ c s

abbrev drop_blank : Char → String → String
drop_blank c s = if is_empty s && is_space_code (code c) then Text.[] else Text.◌∷◌ c s

unfoldable pub rstrip : String → String
rstrip Text.[] = Text.[]
rstrip (Text.◌∷◌ c s) = drop_blank c (rstrip s)

abbrev pub strip : String → String
strip s = rstrip (lstrip s)

abbrev onto_first : Char → List String → List String
onto_first c [] = Text.◌∷◌ c Text.[] ∷ []
onto_first c (s ∷ ss) = Text.◌∷◌ c s ∷ ss

unfoldable pub split_commas : String → List String
split_commas Text.[] = Text.[] ∷ []
split_commas (Text.◌∷◌ c s) =
    let rest = split_commas s in if code c == 44 then Text.[] ∷ rest else onto_first c rest
