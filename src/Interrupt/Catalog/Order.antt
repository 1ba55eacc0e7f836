-- ===== src/Interrupt/Catalog/Order.antt =====
-- The order of event identities is a total order.
use Prim.Native.Nat.{Ordering, lt, eq, gt}
use grevir_core.Common.{[], ◌∷◌, ◌≡◌, refl, ap, arith}
use grevir_core.Interrupt.Catalog.{
  Text, EventIdentity, text_compare, then_compare, identity_compare, is_lt,
}
use grevir_core.Interrupt.Sort.Sorted.{IsOrder}

abbrev flip : Ordering → Ordering
flip lt = gt
flip eq = eq
flip gt = lt

pub record IsComparison {A : Type 0} (cmp : A → A → Ordering) : Type 0 where
  pub eq_of : (a b : A) → cmp a b ≡ eq → a ≡ b
  pub flips : (a b : A) → cmp b a ≡ flip (cmp a b)
  pub trans : (a b c : A) → cmp a b ≡ lt → cmp b c ≡ lt → cmp a c ≡ lt

text_eq_of : (a b : Text) → text_compare a b ≡ eq → a ≡ b
unfolding text_compare
text_eq_of [] [] e = refl
text_eq_of [] (y ∷ ys) e = cc
text_eq_of (x ∷ xs) [] e = cc
text_eq_of (x ∷ xs) (y ∷ ys) e = ground (arith, text_eq_of xs ys, e)

text_flips : (a b : Text) → text_compare b a ≡ flip (text_compare a b)
unfolding text_compare
text_flips [] [] = refl
text_flips [] (y ∷ ys) = refl
text_flips (x ∷ xs) [] = refl
text_flips (x ∷ xs) (y ∷ ys) = ground (arith, text_flips xs ys)

text_trans : (a b c : Text) → text_compare a b ≡ lt → text_compare b c ≡ lt → text_compare a c ≡ lt
unfolding text_compare
text_trans [] [] c h k = k
text_trans [] (y ∷ ys) [] h k = cc
text_trans [] (y ∷ ys) (z ∷ zs) h k = refl
text_trans (x ∷ xs) [] c h k = cc
text_trans (x ∷ xs) (y ∷ ys) [] h k = k
text_trans (x ∷ xs) (y ∷ ys) (z ∷ zs) h k = ground (arith, text_trans xs ys zs, h, k)

pub text-IsComparison : IsComparison text_compare
text-IsComparison = record { eq_of = text_eq_of; flips = text_flips; trans = text_trans }

module _ {A B : Type 0} (f : A → A → Ordering) (g : B → B → Ordering) (F : IsComparison f)
    (G : IsComparison g) where
  abbrev both : A × B → A × B → Ordering
  both p q = then_compare (f p.0 q.0) (g p.1 q.1)

  both-eq_of : (p q : A × B) → both p q ≡ eq → p ≡ q
  both-eq_of p q e = ground (arith, F.eq_of p.0 q.0, G.eq_of p.1 q.1, e)

  both_flips : (p q : A × B) → both q p ≡ flip (both p q)
  both_flips p q = ground (arith, F.flips p.0 q.0, G.flips p.1 q.1)

  both_trans : (p q r : A × B) → both p q ≡ lt → both q r ≡ lt → both p r ≡ lt
  both_trans p q r h k =
      ground
        (arith, F.eq_of p.0 q.0, F.eq_of q.0 r.0, F.trans p.0 q.0 r.0, G.trans p.1 q.1 r.1, h, k)

  both-IsComparison : IsComparison both
  both-IsComparison = record { eq_of = both-eq_of; flips = both_flips; trans = both_trans }

abbrev members : EventIdentity → Text × (Text × Text)
members e = (e.instance_name, (e.request, e.kind))

abbrev identity : Text × (Text × Text) → EventIdentity
identity (i, (r, k)) = record { instance_name = i; request = r; kind = k }

pub identity-IsComparison : IsComparison identity_compare
unfolding identity_compare
identity-IsComparison =
    let rest = both-IsComparison text_compare text_compare text-IsComparison text-IsComparison in
    let c =
      both-IsComparison text_compare
        (both text_compare text_compare text-IsComparison text-IsComparison) text-IsComparison
        rest in
    record {
      eq_of = λ a b e. ap identity (c.eq_of (members a) (members b) e);
      flips = λ a b. c.flips (members a) (members b);
      trans = λ a b d h k. c.trans (members a) (members b) (members d) h k;
    }

-- `<` of a comparison is an order, also of the keys of rows.
pub IsOrder-of :
    {A B : Type 0} (cmp : A → A → Ordering) (key : B → A)
    → IsComparison cmp
    → IsOrder (λ (x y : B). is_lt (cmp (key x) (key y)))
IsOrder-of cmp key c = record {
  asymm = λ a b h. ground (arith, c.flips (key a) (key b), h);
  trans = λ a b d h k. ground (
    arith,
    c.flips (key a) (key b),
    c.flips (key b) (key d),
    c.flips (key a) (key d),
    c.eq_of (key b) (key a),
    c.eq_of (key d) (key b),
    c.trans (key d) (key a) (key b),
    c.trans (key a) (key b) (key d),
    h,
    k,
  );
}
