-- ===== src/Canonical.antt =====
-- JSON values and their freezing, and the content fingerprints of src/rci/claims/models.py. `json.dumps`
-- with sorted keys and `sha256` are not code of the repository: they are the fields of `Hashing`, with
-- the documented form of a hexadecimal digest. A float is its IEEE 754 bit pattern of 64 bits.
use Prim.Native.String
use ratcheting_consequence_i.Base.{
  ℕ, ℤ, String, ◌≡◌, Bool, true, Option, none, some, List, [], ◌∷◌, Eq, String-discrete, ℕ_discrete,
  pos,
}
use ratcheting_consequence_i.Base.Texts.{is_sha256_digest}
pub mod Freeze

mutual
  pub data Json : Type 0 where
    null : Json
    bool : Bool → Json
    int : ℤ → Json
    real : ℕ → Json
    str : String → Json
    array : Items → Json
    object : Members → Json

  pub data Items : Type 0 where
    no_items : Items
    item : Json → Items → Items

  pub data Members : Type 0 where
    no_members : Members
    member : String → Json → Members → Members

unfoldable pub ℤ-discrete : Discrete ℤ
unfolding ℕ_discrete
ℤ-discrete = hlevel ℕ_discrete

unfoldable pub Json-discrete : Discrete Json
unfolding ℤ-discrete String-discrete ℕ_discrete
Json-discrete = hlevel (ℤ-discrete, String-discrete, ℕ_discrete)

instance unfoldable pub json_eq : Eq Json
unfolding Json-discrete
json_eq = record { dec = Json-discrete }

pub record Hashing : Type 0 where
  pub canonical_json : Json → String
  pub sha256 : String → String
  pub sha256-Digest : (s : String) → is_sha256_digest (sha256 s) ≡ true

-- `sha256(f"{namespace}\x00{canonical_json(value)}")`
unfoldable pub content_fingerprint : Hashing → String → Json → String
content_fingerprint h namespace value =
    h.sha256 (String.◌++◌ namespace (String.◌++◌ "\0" (h.canonical_json value)))

abbrev pub nat_json : ℕ → Json
nat_json n = int (pos n)

abbrev pub optional : Option String → Json
optional none = null
optional (some s) = str s

abbrev pub strings : List String → Items
strings [] = no_items
strings (s ∷ rest) = item (str s) (strings rest)

abbrev pub ints : List ℤ → Items
ints [] = no_items
ints (n ∷ rest) = item (int n) (ints rest)
