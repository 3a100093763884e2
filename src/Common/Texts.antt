-- ===== src/Common/Texts.antt =====
-- Texts: comparison, code points, and the character classes of the regular expressions.
use Prim.Native.Nat.{ℕ}
use Prim.Native.Char.{code}
use Prim.Native.String.{String}
use mathlib.Core.Bool.{Bool, true, false, ◌&&◌, ◌||◌}
use mathlib.Core.List.{List, [], ◌∷◌}
use text.Mathlib.Text.{◌==◌ as text_eq}
use agent_host.Common.Tests.{leb, ◌==◌}
use agent_host.Common.Lists.{length, all}
pub use text.Mathlib.TextEquality.{eq_iff}
pub use text.Mathlib.TextPositions.{eq_refl}

infix 50 ◌=?◌
-- `===` on strings.
abbrev pub ◌=?◌ : String → String → Bool
s =? t = text_eq s t

abbrev pub codes : String → List ℕ
codes String.[] = []
codes (String.◌∷◌ c s) = code c ∷ codes s

unfoldable pub is_alnum : ℕ → Bool
is_alnum c = leb b'a' c && leb c b'z' || leb b'A' c && leb c b'Z' || leb b'0' c && leb c b'9'

-- `/^[A-Za-z0-9._:-]{1,100}$/`
unfoldable pub safe_id : String → Bool
unfolding is_alnum
safe_id s =
    leb 1 (length (codes s))
    && leb (length (codes s)) 100
    && all (λ c. is_alnum c || c == b'.' || c == b'_' || c == b':' || c == b'-') (codes s)

-- `/^[A-Za-z0-9_-]{43}$/`
unfoldable pub safe_hash : String → Bool
unfolding is_alnum
safe_hash s = length (codes s) == 43 && all (λ c. is_alnum c || c == b'_' || c == b'-') (codes s)

-- `/^[A-Za-z0-9._:-]{8,128}$/`
unfoldable pub idempotency_key : String → Bool
unfolding is_alnum
idempotency_key s =
    leb 8 (length (codes s))
    && leb (length (codes s)) 128
    && all (λ c. is_alnum c || c == b'.' || c == b'_' || c == b':' || c == b'-') (codes s)

-- `\s`
abbrev pub is_blank : ℕ → Bool
is_blank c =
    (leb 9 c && leb c 13)
    || c == 32
    || c == 160
    || c == 5_760
    || (leb 8_192 c && leb c 8_202)
    || c == 8_232
    || c == 8_233
    || c == 8_239
    || c == 8_287
    || c == 12_288
    || c == 65_279

-- `startsWith`, on bytes or code points.
unfoldable pub starts : List ℕ → List ℕ → Bool
starts [] s = true
starts (p ∷ ps) [] = false
starts (p ∷ ps) (c ∷ s) = p == c && starts ps s
