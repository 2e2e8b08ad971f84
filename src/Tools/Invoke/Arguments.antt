-- ===== src/Tools/Invoke/Arguments.antt =====
-- The arguments of the method that `invoke` (crates/tools/src/invoke.rs) reads from JSON.
use Prim.Native.String.{◌++◌ as ◌<>◌}
use orbit_chain_contracts.Common.{
  String, true, false, Option, none, some, List, [], ◌∷◌, ◌≡◌, refl, sym, arith, inl, inr, subst,
  Bool-cases,
}
use orbit_chain_contracts.Tools.Action.{Attempt-cases, Attempt, ok}
use orbit_chain_contracts.Tools.Invoke.{
  Json, Parsed, is_valid_arg_name, render, render_all, args_of, method_args_from_json,
  method_args_of,
}

pub ok_injective : {E A : Type 0} {a b : A} → ◌≡◌ {A = Attempt E A} (ok a) (ok b) → a ≡ b
ok_injective h = ground arith

-- How the command line shows a value: the text of a string, and the JSON of everything else; a number
-- fits in 64 bits.
pub data IsText : Json → String → Type 0 where
  null_text : IsText Json.null "null"
  true_text : IsText (Json.bool true) "true"
  false_text : IsText (Json.bool false) "false"
  number_text : (text : String) → IsText (Json.number true text) text
  string_text : (text : String) → IsText (Json.string text) text
  compound_text : (text : String) → IsText (Json.compound (some text)) text

-- `--name value` for each field, in order, with names that cannot be read as anything else.
pub data AreArgs : List (String × Json) → List String → Type 0 where
  no_args : AreArgs [] []
  arg :
      (name : String) (value : Json) (text : String) {fields : List (String × Json)}
      {rest : List String}
      → is_valid_arg_name name ≡ true
      → IsText value text
      → AreArgs fields rest
      → AreArgs ((name, value) ∷ fields) (("--" <> name) ∷ text ∷ rest)

-- The method's arguments: none where no JSON is given, and else those of the object that it is.
abbrev pub AreMethodArgs : (String → Parsed) → Option String → List String → Type 0
AreMethodArgs parse none out = out ≡ []
AreMethodArgs parse (some text) out =
    (fields : List (String × Json)) × (parse text ≡ Parsed.object fields) × AreArgs fields out

render-IsText :
    (name : String) (value : Json) (text : String) → render name value ≡ ok text → IsText value text
unfolding render
render-IsText name Json.null text h = subst (IsText Json.null) (ok_injective h) null_text
render-IsText name (Json.bool true) text h =
    subst (IsText (Json.bool true)) (ok_injective h) true_text
render-IsText name (Json.bool false) text h =
    subst (IsText (Json.bool false)) (ok_injective h) false_text
render-IsText name (Json.number true t) text h =
    subst (IsText (Json.number true t)) (ok_injective h) (number_text t)
render-IsText name (Json.number false t) text h = absurd (ground arith)
render-IsText name (Json.string t) text h =
    subst (IsText (Json.string t)) (ok_injective h) (string_text t)
render-IsText name (Json.compound (some t)) text h =
    subst (IsText (Json.compound (some t))) (ok_injective h) (compound_text t)
render-IsText name (Json.compound none) text h = absurd (ground arith)

render_all-AreArgs :
    (fields : List (String × Json)) (out : List String)
    → render_all fields ≡ ok out
    → AreArgs fields out
unfolding render_all
render_all-AreArgs [] out h = subst (AreArgs []) (ok_injective h) no_args
render_all-AreArgs ((name, value) ∷ rest) out h = elim (Bool-cases (is_valid_arg_name name)) [
  | inr bad ↦ absurd (ground arith)
  | inl good ↦ elim (Attempt-cases (render name value)) [
    | inr (e, q) ↦ absurd (ground arith)
    | inl (text, q) ↦ elim (Attempt-cases (render_all rest)) [
      | inr (e, r) ↦ absurd (ground arith)
      | inl (others, r) ↦ subst (AreArgs ((name, value) ∷ rest)) (ground arith) (
          arg name value text good (render-IsText name value text q)
            (render_all-AreArgs rest others r))
    ]
  ]
]

args_of-AreArgs :
    (p : Parsed) (out : List String)
    → args_of p ≡ ok out
    → (fields : List (String × Json)) × (p ≡ Parsed.object fields) × AreArgs fields out
unfolding args_of
args_of-AreArgs Parsed.invalid out h = absurd (ground arith)
args_of-AreArgs Parsed.other out h = absurd (ground arith)
args_of-AreArgs (Parsed.object fields) out h = (fields, refl, render_all-AreArgs fields out h)

pub method_args_of-AreMethodArgs :
    (parse : String → Parsed) (text : Option String) (out : List String)
    → method_args_of parse text ≡ ok out
    → AreMethodArgs parse text out
unfolding method_args_of method_args_from_json
method_args_of-AreMethodArgs parse none out h = sym (ok_injective h)
method_args_of-AreMethodArgs parse (some text) out h = args_of-AreArgs (parse text) out h
