-- ===== src/Scenario/Tools.antt =====
-- The tools of crates/tools/src at concrete inputs.
use orbit_chain_contracts.Common.{
  ℕ, arith, String, ℤ, pos, ◌≡◌, refl, sym, ap, true, false, Option, none, some, List, [], ◌∷◌,
  ◌++◌, length, str_eq, if◌then◌else◌,
}
use orbit_chain_contracts.Types.{Error}
use orbit_chain_contracts.Types
use orbit_chain_contracts.Tools.Action.{ok}
use orbit_chain_contracts.Tools.Lines.{is_blank, is_one_line}
use orbit_chain_contracts.Tools.Audit.Types.{WithdrawalLogEntry, requested, Faults}
use orbit_chain_contracts.Tools.Audit.{new_entry, pending_flush, load_from_disk}
use orbit_chain_contracts.Tools.Audit.Codec.{IsCodec}
use orbit_chain_contracts.Tools.Audit.Journal.{
  Op, IsClean, log_op, flush_op, restart_op, replay, run, fresh, blank, run-load,
}
use orbit_chain_contracts.Tools.ErrorMapper.{load_builtin, get}
use orbit_chain_contracts.Tools.ErrorMapper.Covers.{shown, expected, get-code}
use orbit_chain_contracts.Tools.Invoke.{
  InvokeOptions, Json, Parsed, Command, parse_invoke_args, prepare,
}
use orbit_chain_contracts.Tools.Invoke.RoundTrip.{flags_of, parse_invoke_args-flags_of}
use Prim.Native.String.{len}
use orbit_chain_contracts.Tools.Strkey.{strkey_encode, strkey_decode}
use orbit_chain_contracts.Tools.Strkey.RoundTrip.{AreBytes, strkey_decode-strkey_encode}
use orbit_chain_contracts.Tools.Invoke.Prepared.{IsPrepared, prepare-IsPrepared}

-- One entry, and a codec for it.
abbrev audited : WithdrawalLogEntry
audited = new_entry (ℤ.pos 1700000000) requested 1 "G7" (pos 400) "admin" none none

abbrev to_json : WithdrawalLogEntry → Option String
to_json e = some "{\"campaign_id\":1}"

abbrev from_json : String → Option WithdrawalLogEntry
from_json s = if str_eq s "{\"campaign_id\":1}" then some audited else none

abbrev IsAudited : WithdrawalLogEntry → Type 0
IsAudited e = e ≡ audited

abbrev codec : IsCodec to_json from_json IsAudited
unfolding is_blank is_one_line
codec = record {
  text = λ e. "{\"campaign_id\":1}";
  encodes = λ e h. refl;
  decodes = λ e h. ap some (sym h);
  one_line = λ e h. refl;
  not_blank = λ e h. refl;
}

abbrev works : Faults
works = record {
  open_fails = false;
  metadata_fails = false;
  permissions_fail = false;
  cut_off = none;
  fsync_fails = false;
}

abbrev cannot_open : Faults
cannot_open = record works { open_fails = true }

abbrev audit_ops : List Op
audit_ops =
    log_op audited
    ∷ flush_op works
    ∷ log_op audited
    ∷ flush_op cannot_open
    ∷ restart_op
    ∷ log_op audited
    ∷ flush_op works
    ∷ []

run_load_example :
    ((run to_json from_json audit_ops fresh).log.entries
      ≡ (replay audit_ops blank).durable ++ (replay audit_ops blank).buffer)
    × (pending_flush (run to_json from_json audit_ops fresh).log
        ≡ length (replay audit_ops blank).buffer)
    × (load_from_disk to_json from_json false (run to_json from_json audit_ops fresh).file
        ≡ ok (record {
          entries = (replay audit_ops blank).durable;
          flushed = length (replay audit_ops blank).durable;
        }))
unfolding IsClean
run_load_example = run-load codec audit_ops (refl, (refl, (refl, (refl, (refl, (refl, tt))))))

get_code_example : shown (get (Types.code Error.overflow) load_builtin) ≡ expected Error.overflow
get_code_example = get-code Error.overflow

abbrev contract_id : String
contract_id = "CA3D5KRYM6CB7OWQ6TWYRR3Z4T7GNZLKERYNZGGA5SOAOPIFY6YQGAXE"

abbrev admin_secret : String
admin_secret = "SA3D5KRYM6CB7OWQ6TWYRR3Z4T7GNZLKERYNZGGA5SOAOPIFY6YQGAXE"

abbrev options : InvokeOptions
options = record {
  contract_id = contract_id;
  method = "donate";
  args_json = some "{\"amount\":\"50\"}";
  source_key = none;
  network = some "testnet";
  send = some "no";
}

parse_invoke_args_example : parse_invoke_args (flags_of options) ≡ ok options
parse_invoke_args_example = parse_invoke_args-flags_of options refl refl

abbrev parse_json : String → Parsed
parse_json s = Parsed.object (("amount", Json.string "50") ∷ [])

abbrev shell : String → Option String
shell name = if str_eq name "SOROBAN_ADMIN_SECRET_KEY" then some admin_secret else none

abbrev arguments : List String
arguments =
    "--id" ∷ contract_id ∷ "--method" ∷ "donate" ∷ "--args-json" ∷ "{}" ∷ "--network" ∷ "testnet"
    ∷ []

abbrev command : Command
command = record {
  program = "stellar";
  args =
      "contract" ∷ "invoke" ∷ "--id" ∷ contract_id ∷ "--rpc-url"
      ∷ "https://soroban-testnet.stellar.org:443" ∷ "--network-passphrase"
      ∷ "Test SDF Network ; September 2015" ∷ "--" ∷ "donate" ∷ "--amount" ∷ "50" ∷ [];
  env = ("STELLAR_ACCOUNT", admin_secret) ∷ ("SOROBAN_ACCOUNT", admin_secret) ∷ [];
}

prepared : prepare parse_json shell none arguments ≡ ok command
unfolding prepare
prepared = refl

prepare_example : IsPrepared parse_json shell none arguments command
prepare_example = prepare-IsPrepared parse_json shell none arguments command prepared

-- A key, and its strkey.
abbrev key_bytes : List ℕ
key_bytes =
    200 ∷ 238 ∷ 34 ∷ 100 ∷ 180 ∷ 0 ∷ 255 ∷ 248 ∷ 128 ∷ 22 ∷ 186 ∷ 108 ∷ 44 ∷ 250 ∷ 214 ∷ 192 ∷ 184
    ∷ 190 ∷ 210 ∷ 244 ∷ 36 ∷ 98 ∷ 174 ∷ 8 ∷ 112 ∷ 230 ∷ 106 ∷ 252 ∷ 156 ∷ 74 ∷ 6 ∷ 208 ∷ []

key_bytes-AreBytes : AreBytes key_bytes
unfolding AreBytes
key_bytes-AreBytes = (
  omega arith,
  (
    omega arith,
    (
      omega arith,
      (
        omega arith,
        (
          omega arith,
          (
            omega arith,
            (
              omega arith,
              (
                omega arith,
                (
                  omega arith,
                  (
                    omega arith,
                    (
                      omega arith,
                      (
                        omega arith,
                        (
                          omega arith,
                          (
                            omega arith,
                            (
                              omega arith,
                              (
                                omega arith,
                                (
                                  omega arith,
                                  (
                                    omega arith,
                                    (
                                      omega arith,
                                      (
                                        omega arith,
                                        (
                                          omega arith,
                                          (
                                            omega arith,
                                            (
                                              omega arith,
                                              (
                                                omega arith,
                                                (
                                                  omega arith,
                                                  (
                                                    omega arith,
                                                    (
                                                      omega arith,
                                                      (
                                                        omega arith,
                                                        (
                                                          omega arith,
                                                          (
                                                            omega arith,
                                                            (omega arith, (omega arith, tt)),
                                                          ),
                                                        ),
                                                      ),
                                                    ),
                                                  ),
                                                ),
                                              ),
                                            ),
                                          ),
                                        ),
                                      ),
                                    ),
                                  ),
                                ),
                              ),
                            ),
                          ),
                        ),
                      ),
                    ),
                  ),
                ),
              ),
            ),
          ),
        ),
      ),
    ),
  ),
)

strkey_example :
    (strkey_decode (strkey_encode key_bytes 48) ≡ ok key_bytes)
    × (len (strkey_encode key_bytes 48) ≡ 56)
strkey_example = strkey_decode-strkey_encode key_bytes 48 key_bytes-AreBytes refl (omega arith)
