-- ===== src/Jetstreams/Jsm.antt =====
-- What the program calls of nats.go, jsm.go and the file system, as a parameter of the controller. A
-- call acts on a world `W`.
use anck.Prelude.{String, Option, List}
use anck.Prelude.Exec.{Exec, Result}
use anck.Jetstreams.StreamConfig.{StreamConfig}

pub record Jsm (W : Type 0) : Type 1 where
  pub Conn : Type 0
  pub Manager : Type 0
  pub Stream : Type 0
  -- `nats.Connect(address, nats.UserCredentials(file))`
  pub connect : String → String → Exec W Conn
  pub close : Conn → W → W
  -- `jsm.New(nc)`, and with the option `jsm.WithDomain(domain)`
  pub new_manager : Conn → Option String → Exec W Manager
  pub stream_names : Manager → Exec W (List String)
  pub streams : Manager → Exec W (List Stream)
  pub load_stream : Manager → String → Exec W Stream
  pub configuration : Stream → StreamConfig
  -- `json.Marshal` of a configuration, and `json.Unmarshal` of that into an empty one
  pub copied : StreamConfig → Result StreamConfig
  pub update_configuration : Stream → StreamConfig → Exec W (Unit {0})
  -- `LoadOrNewStreamFromDefault`
  pub load_or_new : Manager → String → StreamConfig → Exec W (Unit {0})
  pub delete : Stream → Exec W (Unit {0})
  -- `os.CreateTemp("", "creds")` and `f.WriteString(creds)`, by the file's name; `os.Remove`
  pub create_temp : Exec W String
  pub write_string : String → String → Exec W (Unit {0})
  pub remove : String → W → W
