-- ===== src/Interrupt/Demand/Laws.antt =====
-- The demand set keeps every demand, and the comparison of two demand sets is equality.
use grevir_core.Common.{
  ℕ, ◌+◌, Bool, true, false, List, [], ◌∷◌, ◌≡◌, ◌↔◌, ◌∙◌, refl, ap, arith, length, if◌then◌else◌,
}
use grevir_core.Interrupt.Catalog.{identity_lt}
use grevir_core.Interrupt.Binding.Valid.{text_eq_iff, identity_eq_iff}
use grevir_core.Interrupt.Handler.{names}
use grevir_core.Interrupt.Catalog.{identity_compare}
use grevir_core.Interrupt.Catalog.Order.{identity-IsComparison, IsOrder-of}
use grevir_core.Interrupt.Sort.Sorted.{IsSorted, sort-IsSorted, weight, tally, tally-sort}
use grevir_core.Interrupt.Demand.{
  Demand, CatalogEvent, present, collect, key_lt, demand_data, same_row, same_rows, same_demands,
}

same_row_iff : (a b : Demand) → (same_row a b ≡ true) ↔ (a ≡ b)
unfolding same_row
same_row_iff a b = ground (
  arith,
  identity_eq_iff a.key b.key,
  text_eq_iff a.named.handler b.named.handler,
  text_eq_iff a.named.context b.named.context,
  text_eq_iff a.named.delivery b.named.delivery,
)

same_rows_iff :
    (live recorded : List Demand)
    → length live ≡ length recorded
    → (same_rows live recorded ≡ true) ↔ (live ≡ recorded)
unfolding same_rows
same_rows_iff [] [] e = ground arith
same_rows_iff [] (b ∷ bs) e = ground arith
same_rows_iff (a ∷ live) [] e = ground arith
same_rows_iff (a ∷ live) (b ∷ bs) e =
    ground (arith, same_row_iff a b, same_rows_iff live bs (omega arith))

-- Two demand sets are found the same exactly if their rows in use are equal.
pub same_demands_iff :
    (live recorded : List Demand) → (same_demands live recorded ≡ true) ↔ (live ≡ recorded)
unfolding same_demands
same_demands_iff live recorded = (
  λ s. ground (arith, same_rows_iff live recorded, s),
  λ e. ground (arith, same_rows_iff live recorded, ap length e, e),
)

module _ (p : Demand → Bool) where
  -- How many events with a handler pass it, as the row that the set has for them.
  abbrev pub tally_declared : List CatalogEvent → ℕ
  tally_declared [] = 0
  tally_declared (e ∷ es) =
      if present e
      then weight p (record { key = e.key; named = names e.declared }) + tally_declared es
      else tally_declared es

  tally_if :
      (b : Bool) (d : Demand) (ds : List Demand) (n : ℕ)
      → tally p ds ≡ n
      → tally p (if b then d ∷ ds else ds) ≡ (if b then weight p d + n else n)
  tally_if true d ds n e = ap (λ t. weight p d + t) e
  tally_if false d ds n e = e

  tally-collect : (es : List CatalogEvent) → tally p (collect es) ≡ tally_declared es
  unfolding collect
  tally-collect [] = refl
  tally-collect (e ∷ es) =
      tally_if (present e) (record { key = e.key; named = names e.declared }) (collect es) _
        (tally-collect es)

  -- The demand set has each event with a handler as often as the catalog does, with the names of its
  -- own handler, and nothing else: every test passes on as many rows as events.
  pub tally-demand_data : (es : List CatalogEvent) → tally p (demand_data es) ≡ tally_declared es
  unfolding demand_data
  tally-demand_data es = tally-sort p key_lt (collect es) ∙ tally-collect es

-- The keys of the demand set ascend: no event is before an earlier one in the order of identities.
pub demand_data-IsSorted : (es : List CatalogEvent) → IsSorted key_lt (demand_data es)
unfolding demand_data identity_lt
demand_data-IsSorted es =
    sort-IsSorted key_lt (IsOrder-of identity_compare (λ (d : Demand). d.key) identity-IsComparison)
      (collect es)
