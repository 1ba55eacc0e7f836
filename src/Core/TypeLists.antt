-- ===== src/Core/TypeLists.antt =====
-- The operations of the base library on a list of types (`setl::TypeArgs`) that src/grevir/core calls.
-- Their code is in another repository: they are a parameter, with the laws that the callers rely on.
use grevir_core.Common.{Bool, true, List, ◌++◌, ◌≡◌, ◌↔◌, Among}

pub record TypeLists (A : Type 0) : Type 0 where
  -- `xs::cat<ys...>` and `xs::cat_type_arg<ys>` put `ys` behind, `xs::catr<ys...>` in front.
  pub cat : List A → List A → List A
  pub catr : List A → List A → List A
  -- `xs::eval_arg1<a, setl::Contains>`
  pub contains : List A → A → Bool
  -- `setl::RemoveAll<xs, ys>`
  pub remove_all : List A → List A → List A
  pub cat_lem : (xs ys : List A) → cat xs ys ≡ xs ++ ys
  pub catr_lem : (xs ys : List A) → catr xs ys ≡ ys ++ xs
  pub contains_iff : (xs : List A) (a : A) → (contains xs a ≡ true) ↔ Among a xs
  pub remove_all_iff :
      (xs ys : List A) (a : A) → Among a (remove_all xs ys) ↔ (Among a xs × ¬ Among a ys)

-- `cat` and `cat_type_arg` on lists of any types.
pub record Cats : Type 1 where
  pub cat : {A : Type 0} → List A → List A → List A
  pub cat_lem : {A : Type 0} (xs ys : List A) → cat xs ys ≡ xs ++ ys
