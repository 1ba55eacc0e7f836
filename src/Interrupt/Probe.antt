-- ===== src/Interrupt/Probe.antt =====
-- src/grevir/interrupt/probe_record.hpp: the bytes that describe a binding plan to the host tool. A
-- loop without an end or a failed assertion ends the compilation: there is no record, `none`.
pub mod Size
mod Tests
use grevir_core.Common.{
  ℕ, zero, suc, ◌+◌, ◌*◌, ◌/◌, ◌%◌, ◌^◌, Bool, true, false, not, ◌&&◌, List, [], ◌∷◌, ◌++◌, Option,
  none, some, length, leb, ltb, ◌==◌, if◌then◌else◌,
}
use grevir_core.Interrupt.Catalog.{Text}
use grevir_core.Interrupt.Binding.{BindingRecord}
use grevir_core.Interrupt.Demand.{Demand}

-- What the record is made from: the board's names, and the capacity and policy of its queue.
pub record Inputs : Type 0 where
  pub backend : Text
  pub target : Text
  pub board : Text
  pub compiler : Text
  pub application : Text
  pub capacity : ℕ
  pub policy : Text
  pub demands : List Demand
  pub selected : List BindingRecord

unfoldable pub encoded_text_size : Text → ℕ
encoded_text_size t = 1 + length t

-- The loops of `probe_record_size`.
unfoldable pub demands_size : List Demand → ℕ
demands_size [] = 0
demands_size (d ∷ ds) =
    encoded_text_size d.key.instance_name
    + encoded_text_size d.key.request
    + encoded_text_size d.key.kind
    + encoded_text_size d.named.handler
    + encoded_text_size d.named.context
    + encoded_text_size d.named.delivery
    + demands_size ds

unfoldable pub bindings_size : List BindingRecord → ℕ
bindings_size [] = 0
bindings_size (b ∷ bs) =
    encoded_text_size b.event.instance_name
    + encoded_text_size b.event.request
    + encoded_text_size b.event.kind
    + encoded_text_size b.owner
    + encoded_text_size b.configuration
    + encoded_text_size b.source
    + encoded_text_size b.selector
    + encoded_text_size b.entry
    + encoded_text_size b.snapshot_policy
    + encoded_text_size b.acknowledge_policy
    + 3
    + bindings_size bs

unfoldable pub probe_record_size : Inputs → ℕ
probe_record_size r =
    4
    + 2
    + 4
    + 2
    + 2
    + 4
    + encoded_text_size r.backend
    + encoded_text_size r.target
    + encoded_text_size r.board
    + encoded_text_size r.compiler
    + encoded_text_size r.application
    + (2 + encoded_text_size r.policy)
    + demands_size r.demands
    + bindings_size r.selected

-- The lambdas `byte`, `word` and `dword`: what they append.
unfoldable pub byte : ℕ → List ℕ
byte value = value % 256 ∷ []

unfoldable pub word : ℕ → List ℕ
word value = byte value ++ byte (value / 256)

unfoldable pub dword : ℕ → List ℕ
dword value = byte value ++ byte (value / 256) ++ byte (value / 65536) ++ byte (value / 16777216)

-- The lambda `string` appends the length and the characters, which are bytes; a text of more than 255
-- has no encoding, which `fitting` tests.
unfoldable pub string : Text → List ℕ
string t = byte (length t) ++ t

unfoldable pub fitting : List Text → Bool
fitting [] = true
fitting (t ∷ ts) = leb (length t) 255 && fitting ts

abbrev pub strings : List Text → List ℕ
strings [] = []
strings (t ∷ ts) = string t ++ strings ts

abbrev pub demand_texts : Demand → List Text
demand_texts d =
    d.key.instance_name ∷ d.key.request ∷ d.key.kind ∷ d.named.handler ∷ d.named.context
    ∷ d.named.delivery ∷ []

abbrev pub binding_texts : BindingRecord → List Text
binding_texts b =
    b.event.instance_name ∷ b.event.request ∷ b.event.kind ∷ b.owner ∷ b.configuration ∷ b.source
    ∷ b.selector ∷ b.entry ∷ b.snapshot_policy ∷ b.acknowledge_policy ∷ []

abbrev pub board_texts : Inputs → List Text
board_texts r = r.backend ∷ r.target ∷ r.board ∷ r.compiler ∷ r.application ∷ []

unfoldable pub encode_demands : List Demand → List ℕ
encode_demands [] = []
encode_demands (d ∷ ds) = strings (demand_texts d) ++ encode_demands ds

unfoldable pub encode_bindings : List BindingRecord → List ℕ
encode_bindings [] = []
encode_bindings (b ∷ bs) =
    strings (binding_texts b)
    ++ word b.dispatch_order
    ++ byte (if b.shared_source then 1 else 0)
    ++ encode_bindings bs

unfoldable pub demands_fitting : List Demand → Bool
demands_fitting [] = true
demands_fitting (d ∷ ds) = fitting (demand_texts d) && demands_fitting ds

unfoldable pub bindings_fitting : List BindingRecord → Bool
bindings_fitting [] = true
bindings_fitting (b ∷ bs) = fitting (binding_texts b) && bindings_fitting bs

unfoldable pub all_fitting : Inputs → Bool
all_fitting r =
    fitting (board_texts r)
    && fitting (r.policy ∷ [])
    && demands_fitting r.demands
    && bindings_fitting r.selected

-- `a ^ b` on so many bits.
unfoldable pub xor : ℕ → ℕ → ℕ → ℕ
xor zero a b = 0
xor (suc n) a b = (a % 2 + b % 2) % 2 + 2 * xor n (a / 2) (b / 2)

-- The loop of the checksum; `width` is the number of bits of `unsigned long`.
unfoldable pub checksum_from : ℕ → ℕ → List ℕ → ℕ
checksum_from width sum [] = sum
checksum_from width sum (b ∷ bs) = checksum_from width ((xor width sum b * 16777619) % 2 ^ width) bs

-- The bytes before the checksum.
unfoldable pub body : Inputs → List ℕ
body r =
    (b'G' ∷ b'I' ∷ b'R' ∷ b'Q' ∷ [])
    ++ word 4
    ++ dword (probe_record_size r)
    ++ word (length r.demands)
    ++ word (length r.selected)
    ++ strings (board_texts r)
    ++ word r.capacity
    ++ string r.policy
    ++ encode_demands r.demands
    ++ encode_bindings r.selected

unfoldable pub encode_probe_record : ℕ → Inputs → Option (List ℕ)
encode_probe_record width r =
    let bytes = body r ++ dword (checksum_from width 2166136261 (body r)) in
    if not (leb (probe_record_size r) 65535)
    then none
    else if not (all_fitting r)
    then none
    else if not (length bytes == probe_record_size r)
    then none
    else some bytes
