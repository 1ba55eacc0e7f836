-- ===== src/Interrupt/Host/Groups.antt =====
-- Bindings that share no source make a group each, in their order.
use grevir_core.Common.{
  true, false, some, List, [], ◌∷◌, ◌++◌, append_assoc, append-nil, map, Among-append_left,
  Among-append_right, ◌≡◌, inl, refl, sym, ap, ◌∙◌, arith, All, All-of, All-at,
}
use grevir_core.Interrupt.Catalog.{Text}
use grevir_core.Interrupt.Binding.{BindingRecord}
use grevir_core.Interrupt.Binding.Valid.{text_eq_iff, identity_eq_iff, IsApart, AllApart}
use grevir_core.Interrupt.Host.{
  GroupEvent, Group, group_event, group_with, put_group, groups_of, valid_binding,
}
use grevir_core.Interrupt.Host.Validate.{
  entry_taken, join_group, validate_bindings, events_eq, groups_eq,
}

abbrev pub single : BindingRecord → Group
single b = group_with (group_event b ∷ []) b

put_new :
    (earlier : List BindingRecord) (b : BindingRecord)
    → All (IsApart b) earlier
    → put_group (map single earlier) b ≡ map single (earlier ++ b ∷ [])
unfolding put_group
put_new [] b h = refl
put_new (x ∷ earlier) b (h, hs) =
    ground (arith, text_eq_iff x.source b.source, h.0, put_new earlier b hs)

join_new :
    (earlier : List BindingRecord) (b : BindingRecord)
    → All (IsApart b) earlier
    → join_group (map single earlier) b ≡ some (map single (earlier ++ b ∷ []))
unfolding join_group
join_new [] b h = refl
join_new (x ∷ earlier) b (h, hs) =
    ground (arith, text_eq_iff x.source b.source, h.0, join_new earlier b hs)

pub groups_single :
    (earlier bs : List BindingRecord)
    → AllApart earlier bs
    → groups_of (map single earlier) bs ≡ map single (earlier ++ bs)
unfolding groups_of
groups_single earlier [] h = ap (map single) (sym (append-nil earlier))
groups_single earlier (b ∷ bs) (h, hs) =
    ap (λ gs. groups_of gs bs) (put_new earlier b h)
    ∙ groups_single (earlier ++ b ∷ []) bs hs
    ∙ ap (map single) (append_assoc earlier (b ∷ []) bs)

-- What the dictionary of entries knows: no other entries than those of earlier bindings.
abbrev pub Knows : List (Text × Text) → List BindingRecord → Type 0
Knows entries earlier =
    (b : BindingRecord) → All (IsApart b) earlier → entry_taken entries b ≡ false

pub Knows-none : Knows [] []
unfolding entry_taken
Knows-none b h = refl

Knows-next :
    (entries : List (Text × Text)) (earlier : List BindingRecord) (b : BindingRecord)
    → Knows entries earlier
    → Knows ((b.entry, b.source) ∷ entries) (earlier ++ b ∷ [])
unfolding entry_taken
Knows-next entries earlier b k c h =
    let last =
      All-at (IsApart c) (earlier ++ b ∷ []) h b
        (Among-append_right b earlier (b ∷ []) (inl refl)) in
    let others = All-of (IsApart c) earlier (λ x m.
      All-at (IsApart c) (earlier ++ b ∷ []) h x (Among-append_left x earlier (b ∷ []) m)) in
    ground (arith, text_eq_iff b.entry c.entry, last.1, k c others)

pub validate_bindings-single :
    (entries : List (Text × Text)) (earlier bs : List BindingRecord)
    → Knows entries earlier
    → AllApart earlier bs
    → All (λ b. valid_binding b ≡ true) bs
    → validate_bindings entries (map single earlier) bs ≡ some (map single (earlier ++ bs))
unfolding validate_bindings
validate_bindings-single entries earlier [] k h v =
    ap (λ bs. some (map single bs)) (sym (append-nil earlier))
validate_bindings-single entries earlier (b ∷ bs) k (h, hs) (v, vs) =
    rw (v, k b h, join_new earlier b h)
      (validate_bindings-single ((b.entry, b.source) ∷ entries) (earlier ++ b ∷ []) bs
          (Knows-next entries earlier b k) hs vs
        ∙ ap (λ xs. some (map single xs)) (append_assoc earlier (b ∷ []) bs))

events_eq_refl : (es : List GroupEvent) → events_eq es es ≡ true
unfolding events_eq
events_eq_refl [] = refl
events_eq_refl (e ∷ es) =
    ground
      (arith, identity_eq_iff e.event e.event, text_eq_iff e.selector e.selector, events_eq_refl es)

pub groups_eq_refl : (gs : List Group) → groups_eq gs gs ≡ true
unfolding groups_eq
groups_eq_refl [] = refl
groups_eq_refl (g ∷ gs) = ground (
  arith,
  text_eq_iff g.source g.source,
  text_eq_iff g.owner g.owner,
  text_eq_iff g.entry g.entry,
  text_eq_iff g.snapshot_policy g.snapshot_policy,
  text_eq_iff g.acknowledge_policy g.acknowledge_policy,
  events_eq_refl g.events,
  groups_eq_refl gs,
)
