-- ===== src/Interrupt/Catalog.antt =====
-- src/grevir/interrupt/catalog.hpp: event identities, their order, and the names that they may have.
-- A `std::string_view` is the list of its bytes.
pub mod Order
use Prim.Native.Nat.{compare, Ordering, lt, eq, gt}
use grevir_core.Common.{ℕ, Bool, true, false, ◌&&◌, ◌||◌, List, [], ◌∷◌, leb, ◌==◌, if◌then◌else◌}

abbrev pub Text : Type 0
Text = List ℕ

pub record EventIdentity : Type 0 where
  pub instance_name : Text
  pub request : Text
  pub kind : Text

-- `std::string_view`'s `==` and `<=>`: the bytes in turn.
unfoldable pub text_eq : Text → Text → Bool
text_eq [] [] = true
text_eq [] (y ∷ ys) = false
text_eq (x ∷ xs) [] = false
text_eq (x ∷ xs) (y ∷ ys) = x == y && text_eq xs ys

unfoldable pub text_compare : Text → Text → Ordering
text_compare [] [] = eq
text_compare [] (y ∷ ys) = lt
text_compare (x ∷ xs) [] = gt
text_compare (x ∷ xs) (y ∷ ys) = elim (compare x y) [ lt ↦ lt | eq ↦ text_compare xs ys | gt ↦ gt ]

abbrev pub then_compare : Ordering → Ordering → Ordering
then_compare lt o = lt
then_compare eq o = o
then_compare gt o = gt

-- The defaulted operators of `EventIdentity`: its members in turn.
unfoldable pub identity_eq : EventIdentity → EventIdentity → Bool
identity_eq a b =
    text_eq a.instance_name b.instance_name && text_eq a.request b.request && text_eq a.kind b.kind

unfoldable pub identity_compare : EventIdentity → EventIdentity → Ordering
identity_compare a b =
    then_compare (text_compare a.instance_name b.instance_name)
      (then_compare (text_compare a.request b.request) (text_compare a.kind b.kind))

abbrev pub is_lt : Ordering → Bool
is_lt lt = true
is_lt _ = false

unfoldable pub identity_lt : EventIdentity → EventIdentity → Bool
identity_lt a b = is_lt (identity_compare a b)

-- The test of one character in `valid_component`.
unfoldable pub valid_character : ℕ → Bool
valid_character c =
    (leb b'a' c && leb c b'z')
    || (leb b'A' c && leb c b'Z')
    || (leb b'0' c && leb c b'9')
    || c == b'_'

unfoldable pub all_valid : Text → Bool
all_valid [] = true
all_valid (c ∷ rest) = if valid_character c then all_valid rest else false

unfoldable pub valid_component : Text → Bool
valid_component [] = false
valid_component (c ∷ rest) = all_valid (c ∷ rest)
