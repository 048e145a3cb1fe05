-- ===== src/Main.antt =====
-- dcos-log/dcos-log.go: the configuration, then the server.
pub mod Guarded
use dcos_log.Base.{List, Bytes, Result, ok, err}
use dcos_log.Config.{Config, Loader, Error, new_config}
use dcos_log.Api.Router.{Surroundings}
use dcos_log.Api.Server.{Platform, Started, start_server}

-- An error of the configuration ends the program.
unfoldable pub run :
    Loader → (p : Platform) → Surroundings → List Bytes → Result Error (Started p.Listener)
unfolding new_config start_server
run l p w args = elim (new_config l args) [ err e ↦ err e | ok cfg ↦ ok (start_server p w cfg) ]
