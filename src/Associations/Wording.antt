-- ===== src/Associations/Wording.antt =====
-- src/core/repository-associations.js: the regular expressions and tests on texts.
use agent_host.Common.{
  ℕ, String, Bool, true, false, ◌&&◌, ◌||◌, not, List, [], ◌∷◌, ◌=?◌, ◌==◌, leb, if◌then◌else◌, any,
  all, codes, sum_of, is_empty,
}

-- `value.length`: the UTF-16 units of a text.
abbrev pub utf16_length : String → ℕ
utf16_length s = sum_of (λ c. if leb 65_536 c then 2 else 1) (codes s)

abbrev pub one_of : List String → String → Bool
one_of xs s = any (λ x. x =? s) xs

-- `\s`
unfoldable pub is_space : ℕ → Bool
is_space c =
    leb 9 c && leb c 13
    || c == 32
    || c == 160
    || c == 5760
    || leb 8192 c && leb c 8202
    || c == 8232
    || c == 8233
    || c == 8239
    || c == 8287
    || c == 12_288
    || c == 65_279

unfoldable pub last_is : (ℕ → Bool) → List ℕ → Bool
last_is p [] = false
last_is p (c ∷ []) = p c
last_is p (c ∷ d ∷ r) = last_is p (d ∷ r)

abbrev pub first_is : (ℕ → Bool) → List ℕ → Bool
first_is p [] = false
first_is p (c ∷ r) = p c

-- Every segment between slashes is non-empty and is neither `.` nor `..`; `seen` is the segment so far.
unfoldable pub segment_fine : List ℕ → Bool
segment_fine [] = false
segment_fine (c ∷ []) = not (c == b'.')
segment_fine (c ∷ d ∷ []) = not (c == b'.' && d == b'.')
segment_fine (c ∷ d ∷ e ∷ r) = true

unfoldable pub segments_fine : List ℕ → List ℕ → Bool
unfolding segment_fine
segments_fine seen [] = segment_fine seen
segments_fine seen (c ∷ r) =
    if c == b'/' then segment_fine seen && segments_fine [] r else segments_fine (c ∷ seen) r

unfoldable pub safe_coordinate : String → Bool → Bool
unfolding is_space last_is segments_fine
safe_coordinate value allow_slash =
    not (any (λ c. leb c 31 || c == 127 || c == 92 || c == 63 || c == 35) (codes value))
    && not (first_is is_space (codes value))
    && not (last_is is_space (codes value))
    && (allow_slash || not (any (λ c. c == 47) (codes value)))
    && segments_fine [] (codes value)

unfoldable pub is_forge : List ℕ → Bool
is_forge [] = false
is_forge (c ∷ r) =
    leb b'a' c
    && leb c b'z'
    && all (λ d. leb b'a' d && leb d b'z' || leb b'0' d && leb d b'9' || d == b'-') r

unfoldable pub is_host : List ℕ → Bool
unfolding last_is
is_host s =
    not (is_empty s)
    && all (λ d. leb b'a' d && leb d b'z' || leb b'0' d && leb d b'9' || d == b'-' || d == b'.') s
    && not (first_is (λ c. c == b'.') s)
    && not (last_is (λ c. c == b'.') s)
