-- ===== src/Interrupt/Decode/RoundTrip.antt =====
-- The host tool reads back what a probe record was made from.
use grevir_core.Common.{
  ℕ, ◌+◌, ◌-◌, ◌*◌, ◌/◌, ◌%◌, ◌^◌, ◌≤◌, ◌<◌, Bool, true, Option, none, some, List, [], ◌∷◌, ◌++◌,
  ◌≡◌, ◌⊎◌, refl, sym, subst, ap, ◌∙◌, arith, append_assoc, All, length-append, length, take, ◌==◌,
  ==_iff, leb_iff,
}
use grevir_core.Interrupt.Catalog.{Text, text_eq}
use grevir_core.Interrupt.Binding.{BindingRecord}
use grevir_core.Interrupt.Demand.{Demand}
use grevir_core.Interrupt.Probe.{
  Inputs, byte, word, dword, string, strings, demand_texts, binding_texts, board_texts,
  encode_demands, encode_bindings, body, probe_record_size, demands_size, bindings_size,
  encoded_text_size, all_fitting, encode_probe_record, checksum_from,
}
use grevir_core.Interrupt.Decode.{
  ◌>>=◌, pure, check, read_bytes, read_byte, read_dword, read_many, read_demand, read_binding,
  read_contents, read_body, masked_checksum, finish, decode,
}
use grevir_core.Interrupt.Probe.{fitting, demands_fitting, bindings_fitting}
use grevir_core.Interrupt.Probe.Size.{record_bytes, length-record_bytes, encode_probe_record_bytes}
use grevir_core.Interrupt.Decode.Checksum.{checksum_agrees}
use grevir_core.Interrupt.Decode.Reads.{
  ReadsAs, ReadsAs-bind, ReadsAs-last, read_many_back, IsReadable, text_then, word_then,
  read_dword-dword, read_demand_back, binding_bytes, read_binding_back, strings_onto,
  strings_onto_lem,
}

length-le-demands : (ds : List Demand) → length ds ≤ demands_size ds
unfolding demands_size encoded_text_size
length-le-demands [] = omega arith
length-le-demands (d ∷ ds) = omega (arith, length-le-demands ds)

length-le-bindings : (bs : List BindingRecord) → length bs ≤ bindings_size bs
unfolding bindings_size encoded_text_size
length-le-bindings [] = omega arith
length-le-bindings (b ∷ bs) = omega (arith, length-le-bindings bs)

counts_small :
    (r : Inputs)
    → probe_record_size r ≤ 65535
    → (length r.demands < 65536) × (length r.selected < 65536)
unfolding probe_record_size
counts_small r h = omega (arith, length-le-demands r.demands, length-le-bindings r.selected)

take-append : (xs ys : List ℕ) → take (length xs) (xs ++ ys) ≡ xs
take-append [] ys = refl
take-append (x ∷ xs) ys = ap (λ zs. x ∷ zs) (take-append xs ys)

module _ (is_utf8 : Text → Bool) where
  fitting_of : (ts : List Text) → All (IsReadable is_utf8) ts → fitting ts ≡ true
  unfolding fitting
  fitting_of [] h = refl
  fitting_of (t ∷ ts) (h, hs) = rw ((leb_iff (length t) 255).1 h.0) (fitting_of ts hs)

  demands_fitting_of :
      (ds : List Demand)
      → All (λ d. All (IsReadable is_utf8) (demand_texts d)) ds
      → demands_fitting ds ≡ true
  unfolding demands_fitting
  demands_fitting_of [] h = refl
  demands_fitting_of (d ∷ ds) (h, hs) =
      rw (fitting_of (demand_texts d) h) (demands_fitting_of ds hs)

  bindings_fitting_of :
      (bs : List BindingRecord)
      → All (λ b. All (IsReadable is_utf8) (binding_texts b) × (b.dispatch_order ≤ 65535)) bs
      → bindings_fitting bs ≡ true
  unfolding bindings_fitting
  bindings_fitting_of [] h = refl
  bindings_fitting_of (b ∷ bs) (h, hs) =
      rw (fitting_of (binding_texts b) h.0) (bindings_fitting_of bs hs)

module _ (is_utf8 : Text → Bool) (r : Inputs) where
  -- What the record's fields of fixed width can hold.
  pub record IsEncodable : Type 0 where
    pub board : All (IsReadable is_utf8) (board_texts r)
    pub policy : IsReadable is_utf8 r.policy
    pub capacity : r.capacity ≤ 65535
    pub demands : All (λ d. All (IsReadable is_utf8) (demand_texts d)) r.demands
    pub selected :
        All
          (λ b. All (IsReadable is_utf8) (binding_texts b) × (b.dispatch_order ≤ 65535))
          r.selected
    pub size : probe_record_size r ≤ 65535

  demands_back :
      (ds : List Demand)
      → All (λ d. All (IsReadable is_utf8) (demand_texts d)) ds
      → All (λ d. ReadsAs (read_demand is_utf8) (strings (demand_texts d)) d) ds
  demands_back [] h = tt
  demands_back (d ∷ ds) (h, hs) = (read_demand_back is_utf8 d h, demands_back ds hs)

  bindings_back :
      (bs : List BindingRecord)
      → All (λ b. All (IsReadable is_utf8) (binding_texts b) × (b.dispatch_order ≤ 65535)) bs
      → All (λ b. ReadsAs (read_binding is_utf8) (binding_bytes is_utf8 b) b) bs
  bindings_back [] h = tt
  bindings_back (b ∷ bs) (h, hs) = (read_binding_back is_utf8 b h.0 h.1, bindings_back bs hs)

  -- The record's bytes, bracketed as they are read.
  abbrev behind_counts : List ℕ
  behind_counts = strings_onto is_utf8 (board_texts r) (
      word r.capacity
      ++ (string r.policy ++ (encode_demands r.demands ++ encode_bindings r.selected)))

  body_regroup :
      (b'G' ∷ b'I' ∷ b'R' ∷ b'Q' ∷ [])
        ++ (word 4
            ++ (dword (probe_record_size r)
                ++ (word (length r.demands) ++ (word (length r.selected) ++ behind_counts))))
      ≡ body r
  unfolding body
  body_regroup = rw (strings_onto_lem is_utf8 (board_texts r)) (simp append_assoc)

  module _ (v : IsEncodable) where
    demands_read :
        ReadsAs
          (read_many (read_demand is_utf8) (length r.demands))
          (encode_demands r.demands)
          r.demands
    unfolding encode_demands
    demands_read =
        read_many_back (read_demand is_utf8) (λ d. strings (demand_texts d)) encode_demands refl
          (λ d ds. refl) r.demands (demands_back r.demands v.demands)

    selected_read :
        ReadsAs
          (read_many (read_binding is_utf8) (length r.selected))
          (encode_bindings r.selected)
          r.selected
    unfolding encode_bindings
    selected_read =
        read_many_back (read_binding is_utf8) (binding_bytes is_utf8) encode_bindings refl
          (λ b bs. refl) r.selected (bindings_back r.selected v.selected)

    contents_read :
        ReadsAs
          (read_contents is_utf8)
          (word (length r.demands) ++ (word (length r.selected) ++ behind_counts))
          r
    unfolding read_contents
    contents_read =
        let (h1, (h2, (h3, (h4, (h5, _))))) = v.board in
        let counts = counts_small r v.size in
        let rest = λ (ds : List Demand).
          read_many (read_binding is_utf8) (length r.selected) >>= λ (bs : List BindingRecord).
          pure (record r { demands = ds; selected = bs }) in
        word_then _ _ _ _ counts.0 (
          word_then _ _ _ _ counts.1 (
            text_then is_utf8 _ _ _ _ h1 (
              text_then is_utf8 _ _ _ _ h2 (
                text_then is_utf8 _ _ _ _ h3 (
                  text_then is_utf8 _ _ _ _ h4 (
                    text_then is_utf8 _ _ _ _ h5 (
                      word_then _ _ _ _ (omega (arith, v.capacity)) (
                        text_then is_utf8 _ _ _ _ v.policy (
                          ReadsAs-bind (read_many (read_demand is_utf8) (length r.demands)) rest
                            (encode_demands r.demands) (encode_bindings r.selected) r.demands r
                            demands_read
                            (ReadsAs-last (read_many (read_binding is_utf8) (length r.selected))
                              (λ (bs : List BindingRecord). record r { selected = bs })
                              (encode_bindings r.selected) r.selected selected_read))))))))))

    body_read :
        (size : ℕ) → size ≡ probe_record_size r → ReadsAs (read_body is_utf8 size) (body r) r
    unfolding read_body read_bytes read_byte text_eq
    body_read size e =
        let after = word (length r.demands) ++ (word (length r.selected) ++ behind_counts) in
        subst (λ bytes. ReadsAs (read_body is_utf8 size) bytes r) body_regroup
          (word_then 4
            (λ schema.
              check (schema == 4)
                (read_dword >>= λ stated. check (stated == size) (read_contents is_utf8)))
            (dword (probe_record_size r) ++ after) r (omega arith)
            (ReadsAs-bind read_dword (λ stated. check (stated == size) (read_contents is_utf8))
              (dword (probe_record_size r)) after (probe_record_size r % 4294967296) r
              (read_dword-dword (probe_record_size r))
              (λ rest.
                rw ((==_iff (probe_record_size r % 4294967296) size).1 (omega (arith, v.size)))
                  (contents_read rest))))

    IsEncodable_fitting : all_fitting r ≡ true
    unfolding all_fitting
    IsEncodable_fitting =
        rw
          (
            fitting_of is_utf8 (board_texts r) v.board,
            fitting_of is_utf8 (r.policy ∷ []) (v.policy, tt),
            demands_fitting_of is_utf8 r.demands v.demands,
          )
          (bindings_fitting_of is_utf8 r.selected v.selected)

    module _ (width : ℕ) (long : (width ≡ 32) ⊎ (width ≡ 64)) where
      abbrev sum : ℕ
      sum = checksum_from width 2166136261 (body r)

      covered_bytes : take (length (record_bytes width r) - 4) (record_bytes width r) ≡ body r
      unfolding dword byte
      covered_bytes =
          let size : length (record_bytes width r) - 4 ≡ length (body r) =
            omega (arith, length-append (body r) (dword sum)) in
          rw size (take-append (body r) (dword sum))

      finished : finish (record_bytes width r) (r, dword sum) ≡ some r
      unfolding finish read_dword read_byte dword byte
      finished =
          let stated =
            sum % 256
            + 256 * (sum / 256 % 256)
            + 65536 * (sum / 65536 % 256)
            + 16777216 * (sum / 16777216 % 256) in
          let expected =
            masked_checksum 2166136261
              (take (length (record_bytes width r) - 4) (record_bytes width r)) in
          let low : stated ≡ sum % 2 ^ 32 = omega arith in
          let same : stated ≡ expected =
            low
            ∙ checksum_agrees width 2166136261 (body r) long
            ∙ ap (masked_checksum 2166136261) (sym covered_bytes) in
          rw ((==_iff stated expected).1 same) refl

      decode-record_bytes : decode is_utf8 (record_bytes width r) ≡ some r
      unfolding decode
      decode-record_bytes =
          ap
            (λ (o : Option (Inputs × List ℕ)). elim o as (λ _. Option Inputs) [
              | none ↦ none
              | some read ↦ finish (record_bytes width r) read
            ])
            (body_read (length (record_bytes width r)) (length-record_bytes width r) (dword sum))
          ∙ finished

      -- For inputs that the record's fields can hold, whose texts the host decodes, and an
      -- `unsigned long` of 32 or 64 bits, there is a record, and the host tool reads back from it exactly
      -- the inputs: every text, the queue's capacity, every demand and every binding.
      pub decode-encode :
          (out : List ℕ) × (encode_probe_record width r ≡ some out) × (decode is_utf8 out ≡ some r)
      decode-encode = (
        record_bytes width r,
        encode_probe_record_bytes width r IsEncodable_fitting v.size,
        decode-record_bytes,
      )
