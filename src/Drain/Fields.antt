-- ===== src/Drain/Fields.antt =====
-- The checks of single values in worker_drain.py. The two patterns are written out; the paths of
-- pathlib are a parameter.
use minecraft_ai.Prelude.{
  ℕ, ◌-◌, ◌^◌, Bool, true, false, List, [], ◌∷◌, Option, none, some, ◌&&◌, ◌||◌, not, leb, ltb,
  ◌==◌, all, length, if◌then◌else◌, Str, same, codes, contains,
}
use minecraft_ai.Prelude.Int.{pos}
use minecraft_ai.Drain.Value.{Value, null, boolean, integer, text, object, Items, has_exactly}

-- `PurePosixPath(value)`: whether it is absolute, its parts, and its text
pub record PosixPaths : Type 0 where
  pub is_absolute : Str → Bool
  pub parts : Str → List Str
  pub path_text : Str → Str

abbrev pub in_range : ℕ → ℕ → ℕ → Bool
in_range low high c = leb low c && leb c high

abbrev pub is_alphanumeric : ℕ → Bool
is_alphanumeric c = in_range 65 90 c || (in_range 97 122 c || in_range 48 57 c)

-- `_`, `.`, `:` and `-` too
abbrev pub is_identity_char : ℕ → Bool
is_identity_char c = is_alphanumeric c || (c == 95 || (c == 46 || (c == 58 || c == 45)))

unfoldable pub is_identity : Str → Bool
is_identity [] = false
is_identity (c ∷ s) = is_alphanumeric c && (all is_identity_char s && leb (length s) 127)

abbrev pub is_hex : ℕ → Bool
is_hex c = in_range 48 57 c || in_range 97 102 c

unfoldable pub is_digest : Str → Bool
is_digest s = length s == 64 && all is_hex s

unfoldable pub is_request_id : Str → Bool
is_request_id s = leb 1 (length s) && leb (length s) 256

unfoldable pub int64_max : ℕ
int64_max = 2 ^ 63 - 1

unfoldable pub object_with : List Str → Value → Option Items
unfolding has_exactly
object_with fields (object d) = if has_exactly fields d then some d else none
object_with fields _ = none

unfoldable pub text_that : (Str → Bool) → Value → Option Str
text_that test (text s) = if test s then some s else none
text_that test _ = none

unfoldable pub identity : Value → Option Str
unfolding text_that is_identity
identity = text_that is_identity

unfoldable pub request_id : Value → Option Str
unfolding text_that is_request_id
request_id = text_that is_request_id

unfoldable pub digest : Value → Option Str
unfolding text_that is_digest
digest = text_that is_digest

unfoldable pub counter : Value → Option ℕ
unfolding int64_max
counter (integer (pos n)) = if leb n int64_max then some n else none
counter _ = none

-- a character below 32, or 127
abbrev pub is_control : ℕ → Bool
is_control c = ltb c 32 || c == 127

abbrev pub has_control : Str → Bool
has_control [] = false
has_control (c ∷ s) = is_control c || has_control s

abbrev pub two_slashes : Str → Bool
two_slashes (c ∷ d ∷ _) = c == 47 && d == 47
two_slashes _ = false

unfoldable pub is_private_path : PosixPaths → Str → Bool
unfolding same contains
is_private_path paths s =
    leb 1 (length s)
    && (leb (length s) 4096
        && (not (has_control s)
            && (paths.is_absolute s
                && (not (two_slashes s)
                    && (not (same s (codes "/"))
                        && (not (contains (paths.parts s) (codes ".."))
                            && same (paths.path_text s) s))))))

unfoldable pub private_path : PosixPaths → Value → Option Str
unfolding text_that is_private_path
private_path paths = text_that (is_private_path paths)

abbrev pub boolean_of : Value → Option Bool
boolean_of (boolean b) = some b
boolean_of _ = none

abbrev pub is_true : Value → Bool
is_true (boolean true) = true
is_true _ = false

abbrev pub is_null : Value → Bool
is_null null = true
is_null _ = false

-- `type(value) is str and value == expected`
unfoldable pub is_text : Value → Str → Bool
unfolding same
is_text (text s) expected = same s expected
is_text _ expected = false
