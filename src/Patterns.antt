-- ===== src/Patterns.antt =====
-- `isContextTooLong` of ai/utils/errorUtils.ts: `toLowerCase` and `includes` on letters of ASCII.
use Prim.Native.Char.{Char, code}
use z1mak_cv_queue.Prelude.{
  Bool, Option, String, false, if◌then◌else◌, leb, none, some, true, truthy, ℕ, ◌&&◌, ◌+◌, ◌==◌,
  ◌||◌,
}

-- The code of a character in lower case.
abbrev lower : Char → ℕ
lower c = if leb 65 (code c) && leb (code c) 90 then code c + 32 else code c

-- `text.toLowerCase().startsWith(pattern)`
unfoldable pub starts_with_lower : String → String → Bool
starts_with_lower String.[] t = true
starts_with_lower (String.◌∷◌ c p) String.[] = false
starts_with_lower (String.◌∷◌ c p) (String.◌∷◌ d t) = lower d == code c && starts_with_lower p t

-- `text.toLowerCase().includes(pattern)`
unfoldable pub includes_lower : String → String → Bool
includes_lower p String.[] = starts_with_lower p String.[]
includes_lower p (String.◌∷◌ c t) = starts_with_lower p (String.◌∷◌ c t) || includes_lower p t

unfoldable pub is_context_too_long : Option String → Bool
is_context_too_long none = false
is_context_too_long (some m) =
    truthy m
    && (includes_lower "context too long" m
        || (includes_lower "input context is too long" m
            || (includes_lower "too large" m || includes_lower "exceeds" m)))
