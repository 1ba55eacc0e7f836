-- ===== src/Interrupt/Probe/Size.antt =====
-- The record has the size that is computed for it, and says so.
use grevir_core.Common.{
  ℕ, ◌+◌, ◌*◌, ◌≤◌, true, List, [], ◌∷◌, ◌++◌, some, ◌≡◌, refl, sym, ap₂, ◌∙◌, arith, length,
  length-append, get_or, ==_iff, leb_iff, if◌then◌else◌,
}
use grevir_core.Interrupt.Catalog.{Text}
use grevir_core.Interrupt.Binding.{BindingRecord}
use grevir_core.Interrupt.Demand.{Demand}
use grevir_core.Interrupt.Probe.{
  Inputs, encoded_text_size, demands_size, bindings_size, probe_record_size, byte, word, dword,
  string, strings, demand_texts, binding_texts, board_texts, encode_demands, encode_bindings,
  all_fitting, checksum_from, body, encode_probe_record,
}

-- The size of so many texts.
abbrev pub texts_size : List Text → ℕ
texts_size [] = 0
texts_size (t ∷ ts) = encoded_text_size t + texts_size ts

length-string : (t : Text) → length (string t) ≡ encoded_text_size t
unfolding string byte encoded_text_size
length-string t = omega arith

length-strings : (ts : List Text) → length (strings ts) ≡ texts_size ts
length-strings [] = refl
length-strings (t ∷ ts) =
    length-append (string t) (strings ts) ∙ ap₂ (λ a b. a + b) (length-string t) (length-strings ts)

length-encode_demands : (ds : List Demand) → length (encode_demands ds) ≡ demands_size ds
unfolding encode_demands demands_size
length-encode_demands [] = refl
length-encode_demands (d ∷ ds) =
    let whole = length-append (strings (demand_texts d)) (encode_demands ds) in
    let texts = length-strings (demand_texts d) in
    let rest = length-encode_demands ds in omega arith

length-encode_bindings : (bs : List BindingRecord) → length (encode_bindings bs) ≡ bindings_size bs
unfolding encode_bindings bindings_size word byte
length-encode_bindings [] = refl
length-encode_bindings (b ∷ bs) =
    let order = strings (binding_texts b) ++ word b.dispatch_order in
    let flag = byte (if b.shared_source then 1 else 0) in
    let l1 = length-append (order ++ flag) (encode_bindings bs) in
    let l2 = length-append order flag in
    let l3 = length-append (strings (binding_texts b)) (word b.dispatch_order) in
    let texts = length-strings (binding_texts b) in
    let rest = length-encode_bindings bs in omega arith

length-body : (r : Inputs) → length (body r) + 4 ≡ probe_record_size r
unfolding body probe_record_size word dword byte
length-body r =
    let names = strings (board_texts r) in
    let queue = names ++ word r.capacity ++ string r.policy in
    let l1 = length-append (queue ++ encode_demands r.demands) (encode_bindings r.selected) in
    let l2 = length-append queue (encode_demands r.demands) in
    let l3 = length-append (names ++ word r.capacity) (string r.policy) in
    let l4 = length-append names (word r.capacity) in
    let texts = length-strings (board_texts r) in
    let policy = length-string r.policy in
    let ds = length-encode_demands r.demands in
    let bs = length-encode_bindings r.selected in omega arith

abbrev pub record_bytes : ℕ → Inputs → List ℕ
record_bytes width r = body r ++ dword (checksum_from width 2166136261 (body r))

pub length-record_bytes :
    (width : ℕ) (r : Inputs) → length (record_bytes width r) ≡ probe_record_size r
unfolding dword byte
length-record_bytes width r =
    length-append (body r) (dword (checksum_from width 2166136261 (body r))) ∙ length-body r

size_field :
    (width : ℕ) (r : Inputs)
    → probe_record_size r ≤ 65535
    → get_or (record_bytes width r) 6 0 + 256 * get_or (record_bytes width r) 7 0
      ≡ probe_record_size r
unfolding body word dword byte
size_field width r small = omega arith

pub encode_probe_record_bytes :
    (width : ℕ) (r : Inputs)
    → all_fitting r ≡ true
    → probe_record_size r ≤ 65535
    → encode_probe_record width r ≡ some (record_bytes width r)
unfolding encode_probe_record
encode_probe_record_bytes width r fit small = rw fit (
    rw ((leb_iff (probe_record_size r) 65535).1 small) (
      rw
        ((==_iff (length (record_bytes width r)) (probe_record_size r)).1
          (length-record_bytes width r))
        refl))

-- When every text has at most 255 characters and the computed size fits in 65535, there is a record: it
-- has exactly the computed size, so no byte is missing or left over, and its bytes 6 and 7 tell that
-- size.
pub encode_probe_record_total :
    (width : ℕ) (r : Inputs)
    → all_fitting r ≡ true
    → probe_record_size r ≤ 65535
    → (out : List ℕ) × (encode_probe_record width r ≡ some out)
      × (length out ≡ probe_record_size r)
      × (get_or out 6 0 + 256 * get_or out 7 0 ≡ length out)
encode_probe_record_total width r fit small =
    let size = length-record_bytes width r in
    (
      record_bytes width r,
      encode_probe_record_bytes width r fit small,
      size,
      size_field width r small ∙ sym size,
    )
