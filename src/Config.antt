-- ===== src/Config.antt =====
-- dcos-log/config: the defaults, the flags, the file and the validation of the configuration.
pub mod Schema
use dcos_log.Base.{
  if◌then◌else◌, Bool, true, false, List, [], ◌∷◌, Bytes, bytes, is_empty, Result, ok, err, ◌>>=◌,
  ℤ, pos,
}
use dcos_log.Config.Schema.{internal_json_validation_schema}

pub record Config : Type 0 where
  pub flag_port : ℤ
  pub flag_verbose : Bool
  pub flag_config : Bytes
  pub flag_auth : Bool
  pub flag_ca_cert_file : Bytes
  pub flag_get_request_timeout : Bytes
  pub flag_role : Bytes

pub data Error : Type 0 where
  no_arguments : Error
  validation_failed : Error
  -- an error of flag, ioutil, gojsonschema or encoding/json
  foreign : Bytes → Error

-- A variable of a flag set: its name, its default and the field that it is bound to.
pub data FlagVar : Type 0 where
  int_var : Bytes → ℤ → (ℤ → Config → Config) → FlagVar
  bool_var : Bytes → Bool → (Bool → Config → Config) → FlagVar
  string_var : Bytes → Bytes → (Bytes → Config → Config) → FlagVar

-- What the configuration is read with: the flags in the arguments, the file system, the validator of a
-- document against the text of a schema (whether it is valid), and json.Unmarshal into a configuration.
pub record Loader : Type 0 where
  pub parse_flags : List FlagVar → List Bytes → Config → Result Bytes Config
  pub read_file : Bytes → Result Bytes Bytes
  pub validate_text : Bytes → Bytes → Result Bytes Bool
  pub validate_config : Bytes → Config → Result Bytes Bool
  pub unmarshal : Bytes → Config → Result Bytes Config

unfoldable pub zero_config : Config
zero_config = record {
  flag_port = pos 0;
  flag_verbose = false;
  flag_config = [];
  flag_auth = false;
  flag_ca_cert_file = [];
  flag_get_request_timeout = [];
  flag_role = [];
}

unfoldable pub default_config : Config
unfolding zero_config
default_config = record zero_config { flag_port = pos 8080; flag_get_request_timeout = bytes "5s" }

unfoldable pub set_flags : Config → List FlagVar
set_flags c =
    int_var (bytes "port") c.flag_port (λ v d. record d { flag_port = v })
    ∷ bool_var (bytes "verbose") c.flag_verbose (λ v d. record d { flag_verbose = v })
    ∷ string_var (bytes "config") c.flag_config (λ v d. record d { flag_config = v })
    ∷ bool_var (bytes "auth") c.flag_auth (λ v d. record d { flag_auth = v })
    ∷ string_var (bytes "ca-cert") c.flag_ca_cert_file (λ v d. record d { flag_ca_cert_file = v })
    ∷ string_var (bytes "timeout") c.flag_get_request_timeout
        (λ v d. record d { flag_get_request_timeout = v })
    ∷ string_var (bytes "role") c.flag_role (λ v d. record d { flag_role = v })
    ∷ []

abbrev lift {ℓ} : {A : Type ℓ} → Result Bytes A → Result Error A
lift (ok a) = ok a
lift (err e) = err (foreign e)

unfoldable pub validated : Result Bytes Bool → Result Error (Unit {0})
validated (err e) = err (foreign e)
validated (ok true) = ok tt
validated (ok false) = err validation_failed

module _ (l : Loader) where
  abbrev validate_config_struct : Config → Result Error (Unit {0})
  validate_config_struct config =
      validated (l.validate_config internal_json_validation_schema config)

  abbrev validate_config_file : Bytes → Result Error (Unit {0})
  validate_config_file content = validated (l.validate_text internal_json_validation_schema content)

  unfoldable pub read_and_update_config_file : Config → Result Error Config
  unfolding validated
  read_and_update_config_file config = if is_empty config.flag_config then ok config else (do
    content ← lift (l.read_file config.flag_config)
    checked ← validate_config_file content
    lift (l.unmarshal content config))

  -- The caller looks at the configuration only if there is no error.
  unfoldable pub new_config : List Bytes → Result Error Config
  unfolding default_config read_and_update_config_file validated
  new_config [] = err no_arguments
  new_config (program ∷ args) = do
    parsed ← lift (l.parse_flags (set_flags default_config) args default_config)
    config ← read_and_update_config_file parsed
    checked ← validate_config_struct config
    ok config
