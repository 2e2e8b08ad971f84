-- ===== src/Tools/Audit/Codec.antt =====
-- The text of the entries of crates/tools/src/withdrawal_audit.rs, written and read back.
use Prim.Native.String.{◌++◌ as ◌<>◌}
use text.Mathlib.TextLemmas.{append_assoc, nil-append}
use orbit_chain_contracts.Common.{
  ℕ, suc, String, true, false, ◌≡◌, refl, sym, ap, ◌∙◌, Option, none, some, List, [], ◌∷◌, ◌++◌,
  arith, length,
}
use orbit_chain_contracts.Tools.Action.{ok}
use orbit_chain_contracts.Tools.Lines.{lines, is_blank, is_one_line, lines-append}
use orbit_chain_contracts.Tools.Audit.Types.{WithdrawalLogEntry, Store}
use orbit_chain_contracts.Tools.Audit.{text_in, loaded, serialize, parse_lines, load_from_disk}

-- The predicate holds of every element.
unfoldable pub All : {A : Type 0} → (A → Type 0) → List A → Type 0
All P [] = Unit
All P (x ∷ xs) = P x × All P xs

pub All-append :
    {A : Type 0} (P : A → Type 0) (xs ys : List A) → All P xs → All P ys → All P (xs ++ ys)
unfolding All
All-append P [] ys h k = k
All-append P (x ∷ xs) ys (h, hs) k = (h, All-append P xs ys hs k)

module _ (encode : WithdrawalLogEntry → Option String) (decode : String → Option WithdrawalLogEntry)
    (Entry : WithdrawalLogEntry → Type 0) where
  -- What the log relies on of serde_json, for the entries that it is given: an entry has a text, on one
  -- line, that is not blank, and that reads back as the entry.
  pub record IsCodec : Type 0 where
    pub text : WithdrawalLogEntry → String
    pub encodes : (e : WithdrawalLogEntry) → Entry e → encode e ≡ some (text e)
    pub decodes : (e : WithdrawalLogEntry) → Entry e → decode (text e) ≡ some e
    pub one_line : (e : WithdrawalLogEntry) → Entry e → is_one_line (text e) ≡ true
    pub not_blank : (e : WithdrawalLogEntry) → Entry e → is_blank (text e) ≡ false

module _ {encode : WithdrawalLogEntry → Option String} {decode : String → Option WithdrawalLogEntry}
    {Entry : WithdrawalLogEntry → Type 0} (codec : IsCodec encode decode Entry) where
  -- The text of entries, a line each.
  unfoldable pub text_of : List WithdrawalLogEntry → String
  text_of [] = ""
  text_of (e ∷ es) = codec.text e <> "\n" <> text_of es

  pub text_of-append :
      (xs ys : List WithdrawalLogEntry) → text_of (xs ++ ys) ≡ text_of xs <> text_of ys
  unfolding text_of
  text_of-append [] ys = sym (nil-append (text_of ys))
  text_of-append (x ∷ xs) ys =
      ap (λ u. codec.text x <> "\n" <> u) (text_of-append xs ys)
      ∙ ap (λ u. codec.text x <> u) (sym (append_assoc "\n" (text_of xs) (text_of ys)))
      ∙ sym (append_assoc (codec.text x) ("\n" <> text_of xs) (text_of ys))

  pub serialize_lem :
      (es : List WithdrawalLogEntry) (s : Store)
      → All Entry es
      → serialize encode decode es s ≡ (ok (text_of es), s)
  unfolding serialize text_of All
  serialize_lem [] s h = refl
  serialize_lem (e ∷ es) s (h, hs) =
      let this = codec.encodes e h in let rest = serialize_lem es s hs in ground arith

  pub parse_lem :
      (n : ℕ) (es : List WithdrawalLogEntry)
      → All Entry es
      → parse_lines encode decode n (lines (text_of es)) ≡ ok es
  unfolding parse_lines text_of lines All
  parse_lem n [] h = refl
  parse_lem n (e ∷ es) (h, hs) =
      let split = lines-append (codec.text e) (text_of es) (codec.one_line e h) in
      let this = codec.decodes e h in
      let dark = codec.not_blank e h in let rest = parse_lem (suc n) es hs in ground arith

  pub load_lem :
      (file : Option String) (d : List WithdrawalLogEntry)
      → text_in file ≡ text_of d
      → (file ≡ none → d ≡ [])
      → All Entry d
      → load_from_disk encode decode false file ≡ ok (record { entries = d; flushed = length d })
  unfolding load_from_disk
  load_lem none d e h k =
      let nothing = h refl in
      ap (λ es. ok (record { entries = es; flushed = length es })) (sym nothing)
  load_lem (some text) d e h k =
      ap (λ u. loaded (parse_lines encode decode 0 (lines u))) e ∙ ap loaded (parse_lem 0 d k)
