-- ===== src/Tools/Invoke/RoundTrip.antt =====
-- The options of `invoke` (crates/tools/src/invoke.rs), written as flags and read back.
use orbit_chain_contracts.Common.{
  String, Option, none, some, List, [], ◌∷◌, ◌++◌, ◌≡◌, refl, ap, ◌∙◌, arith,
}
use orbit_chain_contracts.Tools.Action.{ok}
use orbit_chain_contracts.Tools.Invoke.{
  InvokeOptions, Flags, no_flags, set_flag, read_flags, is_network, is_send, refused, check_flags,
  finish_flags, parse_invoke_args,
}

-- A flag that is given if there is a value.
abbrev pub flag : String → Option String → List String
flag name none = []
flag name (some v) = name ∷ v ∷ []

pub flags_of : InvokeOptions → List String
flags_of o =
    flag "--id" (some o.contract_id)
    ++ (flag "--method" (some o.method)
        ++ (flag "--args-json" o.args_json
            ++ (flag "--source-key" o.source_key
                ++ (flag "--network" o.network ++ flag "--send" o.send))))

read_args_json :
    (v : Option String) (rest : List String) (f : Flags)
    → f.args_json ≡ none
    → read_flags (flag "--args-json" v ++ rest) f ≡ read_flags rest (record f { args_json = v })
unfolding read_flags set_flag
read_args_json none rest f h = ap (λ x. read_flags rest (record f { args_json = x })) h
read_args_json (some v) rest f h = refl

read_source_key :
    (v : Option String) (rest : List String) (f : Flags)
    → f.source_key ≡ none
    → read_flags (flag "--source-key" v ++ rest) f ≡ read_flags rest (record f { source_key = v })
unfolding read_flags set_flag
read_source_key none rest f h = ap (λ x. read_flags rest (record f { source_key = x })) h
read_source_key (some v) rest f h = refl

read_network :
    (v : Option String) (rest : List String) (f : Flags)
    → f.network ≡ none
    → read_flags (flag "--network" v ++ rest) f ≡ read_flags rest (record f { network = v })
unfolding read_flags set_flag
read_network none rest f h = ap (λ x. read_flags rest (record f { network = x })) h
read_network (some v) rest f h = refl

read_send :
    (v : Option String) (f : Flags)
    → f.send ≡ none
    → read_flags (flag "--send" v) f ≡ ok (record f { send = v })
unfolding read_flags set_flag
read_send none f h = ap (λ x. ok (record f { send = x })) h
read_send (some v) f h = refl

abbrev read : InvokeOptions → Flags
read o = record {
  contract_id = some o.contract_id;
  method = some o.method;
  args_json = o.args_json;
  source_key = o.source_key;
  network = o.network;
  send = o.send;
}

abbrev two : InvokeOptions → Flags
two o = record no_flags { contract_id = some o.contract_id; method = some o.method }

read_flags-flags_of : (o : InvokeOptions) → read_flags (flags_of o) no_flags ≡ ok (read o)
unfolding read_flags set_flag flags_of
read_flags-flags_of o =
    read_args_json o.args_json
      (flag "--source-key" o.source_key ++ (flag "--network" o.network ++ flag "--send" o.send))
      (two o) refl
    ∙ read_source_key o.source_key (flag "--network" o.network ++ flag "--send" o.send)
        (record (two o) { args_json = o.args_json }) refl
    ∙ read_network o.network (flag "--send" o.send)
        (record (two o) { args_json = o.args_json; source_key = o.source_key }) refl
    ∙ read_send o.send
        (record (two o) { args_json = o.args_json; source_key = o.source_key; network = o.network })
        refl

-- Options whose network and sending mode, where given, are allowed are read back from their flags as they
-- were, whatever the contract, the method, the JSON text and the key.
pub parse_invoke_args-flags_of :
    (o : InvokeOptions)
    → refused is_network o.network ≡ none
    → refused is_send o.send ≡ none
    → parse_invoke_args (flags_of o) ≡ ok o
unfolding parse_invoke_args finish_flags check_flags
parse_invoke_args-flags_of o h k = let all = read_flags-flags_of o in ground arith
