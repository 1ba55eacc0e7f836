-- ===== src/Interrupt/Decode/Reads.antt =====
-- Each reader reads back what the record has for a value, and leaves the bytes behind it.
use grevir_core.Common.{
  ℕ, ◌%◌, ◌≤◌, ◌<◌, Bool, true, false, Option, none, some, List, [], ◌∷◌, ◌++◌, ◌≡◌, refl, sym,
  subst, ap, ◌∙◌, arith, append_assoc, All, length, leb, ◌==◌, if◌then◌else◌,
}
use grevir_core.Interrupt.Catalog.{Text}
use grevir_core.Interrupt.Binding.{BindingRecord}
use grevir_core.Interrupt.Demand.{Demand}
use grevir_core.Interrupt.Probe.{byte, word, dword, string, strings, demand_texts, binding_texts}
use grevir_core.Interrupt.Decode.{
  Reader, ◌>>=◌, pure, check, read_byte, read_bytes, read_word, read_dword, read_many, read_text,
  read_demand, read_binding,
}

abbrev pub ReadsAs : {A : Type 0} → Reader A → List ℕ → A → Type 0
ReadsAs p bytes a = (rest : List ℕ) → p (bytes ++ rest) ≡ some (a, rest)

-- A reader that has succeeded, in a chain.
pub bind_at :
    {A B : Type 0} (p : Reader A) (f : A → Reader B) {bytes rest : List ℕ} {a : A}
    → p bytes ≡ some (a, rest)
    → (p >>= f) bytes ≡ f a rest
bind_at {A} {B} p f e =
    ap
      (λ (o : Option (A × List ℕ)). elim o as (λ _. Option (B × List ℕ)) [
        | none ↦ none
        | some (a, rest) ↦ f a rest
      ])
      e

pub ReadsAs-bind :
    {A B : Type 0} (p : Reader A) (f : A → Reader B) (xs ys : List ℕ) (a : A) (b : B)
    → ReadsAs p xs a
    → ReadsAs (f a) ys b
    → ReadsAs (p >>= f) (xs ++ ys) b
ReadsAs-bind p f xs ys a b h k rest =
    rw (append_assoc xs ys rest) (bind_at p f (h (ys ++ rest)) ∙ k rest)

-- Where nothing is read behind the value.
pub ReadsAs-last :
    {A B : Type 0} (p : Reader A) (f : A → B) (xs : List ℕ) (a : A)
    → ReadsAs p xs a
    → ReadsAs (p >>= λ a. pure (f a)) xs (f a)
ReadsAs-last p f xs a h rest = bind_at p (λ a. pure (f a)) (h rest)

read_byte-byte : (n : ℕ) → n < 256 → ReadsAs read_byte (byte n) n
unfolding read_byte byte
read_byte-byte n h rest = ap (λ (k : ℕ). some (k, rest)) (omega arith)

pub read_word-word : (n : ℕ) → n < 65536 → ReadsAs read_word (word n) n
unfolding read_word read_byte word byte
read_word-word n h rest = ap (λ (k : ℕ). some (k, rest)) (omega arith)

-- A word, and what is read behind it.
pub word_then :
    {B : Type 0} (n : ℕ) (f : ℕ → Reader B) (ys : List ℕ) (b : B)
    → n < 65536
    → ReadsAs (f n) ys b
    → ReadsAs (read_word >>= f) (word n ++ ys) b
word_then n f ys b h k = ReadsAs-bind read_word f (word n) ys n b (read_word-word n h) k

pub read_dword-dword : (n : ℕ) → ReadsAs read_dword (dword n) (n % 4294967296)
unfolding read_dword read_byte dword byte
read_dword-dword n rest = ap (λ (k : ℕ). some (k, rest)) (omega arith)

pub read_bytes_back : (xs : List ℕ) → ReadsAs (read_bytes (length xs)) xs xs
unfolding read_bytes read_byte
read_bytes_back [] rest = refl
read_bytes_back (x ∷ xs) rest =
    bind_at (read_bytes (length xs)) (λ bs. pure (x ∷ bs)) (read_bytes_back xs rest)

pub read_many_back :
    {A : Type 0} (p : Reader A) (print : A → List ℕ) (prints : List A → List ℕ)
    → prints [] ≡ []
    → ((x : A) (xs : List A) → prints (x ∷ xs) ≡ print x ++ prints xs)
    → (xs : List A) → All (λ x. ReadsAs p (print x) x) xs
    → ReadsAs (read_many p (length xs)) (prints xs) xs
unfolding read_many
read_many_back p print prints e c [] h rest = rw e refl
read_many_back {A} p print prints e c (x ∷ xs) (h, hs) rest = rw (c x xs) (
    ReadsAs-bind p (λ x. read_many p (length xs) >>= λ xs. pure (x ∷ xs)) (print x) (prints xs) x
      (x ∷ xs) h
      (ReadsAs-last (read_many p (length xs)) (λ (ys : List A). x ∷ ys) (prints xs) xs
        (read_many_back p print prints e c xs hs))
      rest)

module _ (is_utf8 : Text → Bool) where
  abbrev pub IsReadable : Text → Type 0
  IsReadable t = (length t ≤ 255) × (is_utf8 t ≡ true)

  pub read_text-string : (t : Text) → IsReadable t → ReadsAs (read_text is_utf8) (string t) t
  unfolding read_text string byte read_byte
  read_text-string t (short, good) rest =
      let small : length t % 256 ≡ length t = omega arith in
      rw small (
        bind_at (read_bytes (length t)) (λ raw. check (is_utf8 raw) (pure raw))
          (read_bytes_back t rest)
        ∙ rw good refl)

  -- A text, and what is read behind it.
  pub text_then :
      {B : Type 0} (t : Text) (f : Text → Reader B) (ys : List ℕ) (b : B)
      → IsReadable t
      → ReadsAs (f t) ys b
      → ReadsAs (read_text is_utf8 >>= f) (string t ++ ys) b
  text_then t f ys b h k =
      ReadsAs-bind (read_text is_utf8) f (string t) ys t b (read_text-string t h) k

  pub read_demand_back :
      (d : Demand)
      → All IsReadable (demand_texts d)
      → ReadsAs (read_demand is_utf8) (strings (demand_texts d)) d
  unfolding read_demand
  read_demand_back d (h1, (h2, (h3, (h4, (h5, (h6, _)))))) = text_then _ _ _ _ h1 (
      text_then _ _ _ _ h2 (
        text_then _ _ _ _ h3
          (text_then _ _ _ _ h4 (text_then _ _ _ _ h5 (text_then _ _ _ _ h6 (λ rest. refl))))))

  -- The bytes of one binding.
  abbrev pub binding_bytes : BindingRecord → List ℕ
  binding_bytes b =
      strings (binding_texts b) ++ word b.dispatch_order ++ byte (if b.shared_source then 1 else 0)

  flag_then :
      {A : Type 0} (flag : Bool) (f : Bool → A)
      → ReadsAs
          (read_byte >>= λ n. check (leb n 1) (pure (f (n == 1))))
          (byte (if flag then 1 else 0))
          (f flag)
  unfolding read_byte byte
  flag_then true f rest = refl
  flag_then false f rest = refl

  -- The texts in turn, and what stands behind them.
  abbrev pub strings_onto : List Text → List ℕ → List ℕ
  strings_onto [] ys = ys
  strings_onto (t ∷ ts) ys = string t ++ strings_onto ts ys

  pub strings_onto_lem : (ts : List Text) (ys : List ℕ) → strings_onto ts ys ≡ strings ts ++ ys
  strings_onto_lem [] ys = refl
  strings_onto_lem (t ∷ ts) ys =
      ap (λ zs. string t ++ zs) (strings_onto_lem ts ys)
      ∙ sym (append_assoc (string t) (strings ts) ys)

  pub read_binding_back :
      (b : BindingRecord)
      → All IsReadable (binding_texts b)
      → b.dispatch_order ≤ 65535
      → ReadsAs (read_binding is_utf8) (binding_bytes b) b
  unfolding read_binding
  read_binding_back b (h1, (h2, (h3, (h4, (h5, (h6, (h7, (h8, (h9, (h10, _)))))))))) small =
      let order = word b.dispatch_order in
      let flag = byte (if b.shared_source then 1 else 0) in
      subst (λ bytes. ReadsAs (read_binding is_utf8) bytes b)
        (strings_onto_lem (binding_texts b) (order ++ flag)
          ∙ sym (append_assoc (strings (binding_texts b)) order flag))
        (text_then _ _ _ _ h1 (
          text_then _ _ _ _ h2 (
            text_then _ _ _ _ h3 (
              text_then _ _ _ _ h4 (
                text_then _ _ _ _ h5 (
                  text_then _ _ _ _ h6 (
                    text_then _ _ _ _ h7 (
                      text_then _ _ _ _ h8 (
                        text_then _ _ _ _ h9 (
                          text_then _ _ _ _ h10 (
                            word_then _ _ _ _ (omega arith) (
                              flag_then b.shared_source
                                (λ s. record b { shared_source = s })))))))))))))
