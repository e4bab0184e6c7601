-- ===== src/Facts/Reference.antt =====
-- internal/facts/journal.go: ValidResultRef and uriScheme, on the characters of the reference.
use Prim.Native.String.{len}
use agenova.Prelude.{
  ℕ, String, Bool, true, false, not, ◌&&◌, ◌||◌, List, [], ◌∷◌, Option, none, some, ◌==◌, string_eq,
  nat_eq, list_eq, leb, ltb, any,
}
use agenova.Prelude.Texts.{codes, contains_any, has_prefix, contains_text, cut, to_lower}

-- The keys of the map fetchableSchemes.
fetchable_schemes : List String
fetchable_schemes = "data" ∷ "file" ∷ "ftp" ∷ "http" ∷ "https" ∷ "javascript" ∷ "ws" ∷ "wss" ∷ []

fetchable : List ℕ → Bool
unfolding fetchable_schemes
fetchable scheme = any (λ known. codes known == scheme) fetchable_schemes

is_letter : ℕ → Bool
is_letter c = leb b'a' c && leb c b'z' || leb b'A' c && leb c b'Z'

is_scheme_mark : ℕ → Bool
is_scheme_mark c = leb b'0' c && leb c b'9' || c == b'+' || c == b'-' || c == b'.'

scheme_tail : List ℕ → Bool
unfolding is_letter is_scheme_mark
scheme_tail [] = true
scheme_tail (c ∷ s) = (is_letter c || is_scheme_mark c) && scheme_tail s

unfoldable pub uri_scheme : List ℕ → Bool
unfolding is_letter scheme_tail
uri_scheme [] = false
uri_scheme (c ∷ s) = is_letter c && scheme_tail s

-- " \t\r\n\x00?#@"
abbrev forbidden : List ℕ
forbidden = 32 ∷ 9 ∷ 13 ∷ 10 ∷ 0 ∷ b'?' ∷ b'#' ∷ b'@' ∷ []

abbrev scheme_allowed : List ℕ × Option (List ℕ) → Bool
unfolding uri_scheme fetchable
scheme_allowed (scheme, none) = true
scheme_allowed (scheme, some rest) =
    not (uri_scheme scheme)
    || not (has_prefix rest (b'/' ∷ [])) && not (fetchable (to_lower scheme))

unfoldable pub valid_result_ref : String → Bool
unfolding uri_scheme fetchable contains_any has_prefix contains_text cut to_lower
valid_result_ref ref =
    let s = codes ref in
    not (
      ref == ""
      || ltb 256 (len ref)
      || contains_any s forbidden
      || contains_text s (codes "://")
      || has_prefix s (codes "//"))
    && scheme_allowed (cut b':' s)
