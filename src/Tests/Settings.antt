-- ===== src/Tests/Settings.antt =====
-- The configuration at concrete arguments and files.
use dcos_log.Base.{◌≡◌, refl, true, [], ◌∷◌, bytes, ok}
use dcos_log.Config.{Config, Loader, new_config, default_config}

abbrev named : Config → Config
named c = record c { flag_config = bytes "/etc/c.json" }

abbrev pub loader : Loader
loader = record {
  parse_flags = λ vars args c. ok (named c);
  read_file = λ path. ok (bytes "{}");
  validate_text = λ schema text. ok true;
  validate_config = λ schema c. ok true;
  unmarshal = λ text c. ok (record c { flag_auth = true });
}

abbrev pub loaded : Config
loaded = record default_config { flag_config = bytes "/etc/c.json"; flag_auth = true }

pub loads : new_config loader (bytes "dcos-log" ∷ []) ≡ ok loaded
unfolding new_config
loads = refl
