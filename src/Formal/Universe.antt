-- ===== src/Formal/Universe.antt =====
-- src/rci/formal/exhaustive.py: finite domains, universes, assignments and their enumeration.
pub mod Choices
pub mod Bindings
use ratcheting_consequence_i.Base.{
  ℕ, ◌+◌, ◌*◌, String, ◌≡◌, Bool, true, false, not, ◌&&◌, ◌||◌, List, [], ◌∷◌, map, Eq, ◌==◌, all,
  distinct, gather, is_empty, length, if◌then◌else◌, string_eq, list_eq, String-discrete,
}
use ratcheting_consequence_i.Base.Keyed.{put}
use ratcheting_consequence_i.Base.Order.{string_ord}
use ratcheting_consequence_i.Base.Sort.{sorted}
use ratcheting_consequence_i.Formal.Ast.{Scalar, boolean, text, Environment}

unfoldable pub Scalar-discrete : Discrete Scalar
unfolding String-discrete
Scalar-discrete = hlevel String-discrete

instance unfoldable pub scalar_eq : Eq Scalar
unfolding Scalar-discrete
scalar_eq = record { dec = Scalar-discrete }

pub record AssignmentValue : Type 0 where
  pub symbol : String
  pub value : Scalar

-- `Assignment.values`
abbrev pub Assignment : Type 0
Assignment = List AssignmentValue

abbrev pub fill : Environment → Assignment → Environment
fill env [] = env
fill env (item ∷ items) = fill (put item.symbol item.value env) items

-- `Assignment.as_environment`: a dict comprehension, in which a later value replaces an earlier one.
unfoldable pub as_environment : Assignment → Environment
as_environment values = fill [] values

pub record FiniteDomain : Type 0 where
  pub symbol : String
  pub values : List Scalar

abbrev pub is_bool : Scalar → Bool
is_bool (boolean b) = true
is_bool (text s) = false

-- The values are all `bool` or all `str`.
unfoldable pub uniform : List Scalar → Bool
uniform values = all is_bool values || all (λ v. not (is_bool v)) values

unfoldable pub valid_domain : FiniteDomain → Bool
unfolding uniform
valid_domain d =
    not (d.symbol == "") && not (is_empty d.values) && distinct d.values && uniform d.values

pub record FiniteUniverse : Type 0 where
  pub id : String
  pub revision : String
  pub domains : List FiniteDomain
  pub closed_world : Bool

unfoldable pub names_of : List FiniteDomain → List String
names_of [] = []
names_of (d ∷ ds) = d.symbol ∷ names_of ds

unfoldable pub valid_universe : FiniteUniverse → Bool
unfolding valid_domain names_of
valid_universe u =
    not (u.id == "")
    && not (u.revision == "")
    && not (is_empty u.domains)
    && distinct (names_of u.domains)
    && (names_of u.domains == sorted (λ name. name) (names_of u.domains))
    && all valid_domain u.domains

-- `prod(len(domain.values) for domain in domains)`
unfoldable pub count_assignments : List FiniteDomain → ℕ
count_assignments [] = 1
count_assignments (d ∷ ds) = length d.values * count_assignments ds

unfoldable pub assignment_count : FiniteUniverse → ℕ
assignment_count u = count_assignments u.domains

-- `itertools.product`: the last domain varies fastest.
unfoldable pub assignments : List FiniteDomain → List Assignment
assignments [] = [] ∷ []
assignments (d ∷ ds) =
    let rests = assignments ds in
    gather (λ v. map (λ rest. record { symbol = d.symbol; value = v } ∷ rest) rests) d.values

unfoldable pub enumerate_assignments : FiniteUniverse → List Assignment
unfolding assignments
enumerate_assignments u = assignments u.domains
