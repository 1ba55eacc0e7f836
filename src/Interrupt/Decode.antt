-- ===== src/Interrupt/Decode.antt =====
-- tools/grevir_irqgen/protocol.py: how the host tool reads a probe record, up to the plan that it makes
-- of it. `none` is the exception `PlanError`.
pub mod Reads
pub mod Checksum
pub mod RoundTrip
mod Tests
use grevir_core.Common.{
  ℕ, zero, suc, ◌+◌, ◌-◌, ◌*◌, ◌%◌, ◌^◌, Bool, true, false, not, Option, none, some, List, [], ◌∷◌,
  length, take, leb, ◌==◌, if◌then◌else◌,
}
use grevir_core.Interrupt.Catalog.{Text, text_eq}
use grevir_core.Interrupt.Binding.{BindingRecord}
use grevir_core.Interrupt.Handler.{HandlerNames}
use grevir_core.Interrupt.Demand.{Demand}
use grevir_core.Interrupt.Probe.{Inputs, xor}

-- The methods of `Reader`: a value, and what is left to read.
abbrev pub Reader : Type 0 → Type 0
Reader A = List ℕ → Option (A × List ℕ)

infixl 5 ◌>>=◌
abbrev pub ◌>>=◌ : {A B : Type 0} → Reader A → (A → Reader B) → Reader B
◌>>=◌ p f bytes = elim (p bytes) [ none ↦ none | some (a, rest) ↦ f a rest ]

abbrev pub pure : {A : Type 0} → A → Reader A
pure a bytes = some (a, bytes)

-- `if not …: raise PlanError(…)`
abbrev pub check : {B : Type 0} → Bool → Reader B → Reader B
check true p = p
check false p = λ bytes. none

unfoldable pub read_byte : Reader ℕ
read_byte [] = none
read_byte (b ∷ bytes) = some (b, bytes)

-- `Reader.take`
unfoldable pub read_bytes : ℕ → Reader (List ℕ)
read_bytes zero = pure []
read_bytes (suc n) = read_byte >>= λ b. read_bytes n >>= λ bs. pure (b ∷ bs)

unfoldable pub read_word : Reader ℕ
read_word = read_byte >>= λ a. read_byte >>= λ b. pure (a + 256 * b)

unfoldable pub read_dword : Reader ℕ
read_dword = read_byte >>= λ a. read_byte >>= λ b.
    read_byte >>= λ c. read_byte >>= λ d. pure (a + 256 * b + 65536 * c + 16777216 * d)

-- `for _ in range(count)`
unfoldable pub read_many : {A : Type 0} → Reader A → ℕ → Reader (List A)
read_many p zero = pure []
read_many p (suc n) = p >>= λ x. read_many p n >>= λ xs. pure (x ∷ xs)

-- The loop of the checksum, masked to 32 bits.
unfoldable pub masked_checksum : ℕ → List ℕ → ℕ
masked_checksum actual [] = actual
masked_checksum actual (b ∷ bs) = masked_checksum ((xor 32 actual b * 16777619) % 2 ^ 32) bs

-- `decode` from the position check to the checksum.
unfoldable pub finish : List ℕ → Inputs × List ℕ → Option Inputs
finish bytes (r, rest) = if not (length rest == 4) then none else elim (read_dword rest) [
  | none ↦ none
  | some (expected, _) ↦
      if expected == masked_checksum 2166136261 (take (length bytes - 4) bytes)
      then some r
      else none
]

-- `is_utf8` says whether the library's `bytes.decode("utf-8")` accepts the bytes.
module _ (is_utf8 : Text → Bool) where
  unfoldable pub read_text : Reader Text
  read_text = read_byte >>= λ n. read_bytes n >>= λ raw. check (is_utf8 raw) (pure raw)

  unfoldable pub read_demand : Reader Demand
  read_demand = read_text >>= λ instance_name. read_text >>= λ request. read_text >>= λ kind.
      read_text >>= λ handler. read_text >>= λ context. read_text >>= λ delivery. pure (record {
        key = record { instance_name = instance_name; request = request; kind = kind };
        named = record { handler = handler; context = context; delivery = delivery };
      })

  unfoldable pub read_binding : Reader BindingRecord
  read_binding = read_text >>= λ instance_name. read_text >>= λ request. read_text >>= λ kind.
      read_text >>= λ owner. read_text >>= λ configuration. read_text >>= λ source.
      read_text >>= λ selector. read_text >>= λ entry. read_text >>= λ snapshot_policy.
      read_text >>= λ acknowledge_policy. read_word >>= λ dispatch_order. read_byte >>= λ flag.
      check (leb flag 1) (
        pure (record {
          event = record { instance_name = instance_name; request = request; kind = kind };
          owner = owner;
          configuration = configuration;
          source = source;
          selector = selector;
          entry = entry;
          snapshot_policy = snapshot_policy;
          acknowledge_policy = acknowledge_policy;
          dispatch_order = dispatch_order;
          shared_source = flag == 1;
        }))

  -- `decode` from the counts to the bindings.
  unfoldable pub read_contents : Reader Inputs
  read_contents = read_word >>= λ demand_count. read_word >>= λ binding_count.
      read_text >>= λ backend. read_text >>= λ target. read_text >>= λ board.
      read_text >>= λ compiler. read_text >>= λ application. read_word >>= λ capacity.
      read_text >>= λ policy. read_many read_demand demand_count >>= λ demands.
      read_many read_binding binding_count >>= λ selected. pure (record {
        backend = backend;
        target = target;
        board = board;
        compiler = compiler;
        application = application;
        capacity = capacity;
        policy = policy;
        demands = demands;
        selected = selected;
      })

  -- `decode` from the start; `size` is `len(data)`.
  unfoldable pub read_body : ℕ → Reader Inputs
  read_body size = read_bytes 4 >>= λ magic.
      check (text_eq magic (b'G' ∷ b'I' ∷ b'R' ∷ b'Q' ∷ [])) (
        read_word >>= λ schema.
        check (schema == 4) (read_dword >>= λ stated. check (stated == size) read_contents))

  unfoldable pub decode : List ℕ → Option Inputs
  decode bytes = elim (read_body (length bytes) bytes) [
    | none ↦ none
    | some read ↦ finish bytes read
  ]
