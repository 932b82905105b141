-- ===== src/Base/Texts.antt =====
-- src/rci/core/model.py: the text patterns of digests, identifiers and short texts. `re`'s classes are
-- written out over code points, of which Pydantic's lengths are counts.
use Prim.Native.Char.{code}
use ratcheting_consequence_i.Base.{
  ℕ, String, Bool, false, ◌&&◌, ◌||◌, List, [], ◌∷◌, length, all, leb, ◌==◌, nat_eq,
}

abbrev pub codes : String → List ℕ
codes String.[] = []
codes (String.◌∷◌ c s) = code c ∷ codes s

abbrev between : ℕ → ℕ → ℕ → Bool
between low high c = leb low c && leb c high

-- `[0-9a-f]`
abbrev is_hex : ℕ → Bool
is_hex c = between b'0' b'9' c || between b'a' b'f' c

-- `[A-Za-z0-9]`
abbrev is_alphanumeric : ℕ → Bool
is_alphanumeric c = between b'0' b'9' c || between b'A' b'Z' c || between b'a' b'z' c

-- `[A-Za-z0-9._:/-]`
abbrev is_identifier_code : ℕ → Bool
is_identifier_code c =
    is_alphanumeric c || c == b'.' || c == b'_' || c == b':' || c == b'/' || c == b'-'

unfoldable pub is_sha256_digest : String → Bool
unfolding all nat_eq
is_sha256_digest s = (length (codes s) == 64) && all is_hex (codes s)

abbrev identifier_codes : List ℕ → Bool
unfolding all nat_eq
identifier_codes [] = false
identifier_codes (c ∷ cs) =
    leb (length (c ∷ cs)) 240 && is_alphanumeric c && all is_identifier_code cs

unfoldable pub is_identifier : String → Bool
unfolding identifier_codes
is_identifier s = identifier_codes (codes s)

unfoldable pub is_nonempty_text : String → Bool
is_nonempty_text s = leb 1 (length (codes s)) && leb (length (codes s)) 4096
