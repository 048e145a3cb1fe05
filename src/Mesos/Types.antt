-- ===== src/Mesos/Types.antt =====
-- The types of dcos-log/mesos/files/reader: the lines and the reader's state, and what it takes from
-- net/http and encoding/json.
use dcos_log.Base.{ℕ, ◌^◌, Bool, List, Bytes, Option, ℤ, Result, ok, err}

-- The most that one request asks for, 1 << 16.
abbrev pub chunk_size : ℕ
chunk_size = 2 ^ 16

pub data Error : Type 0 where
  -- io.EOF
  eof : Error
  -- ErrNoData and ErrFileNotFound
  no_data : Error
  file_not_found : Error
  bad_status : ℕ → Error
  parameters_empty : Error
  parameter_empty : Error
  invalid_offset : ℤ → Error
  -- an error of net/http or encoding/json
  foreign : Bytes → Error
  -- the model's own: a loop ran out of fuel
  out_of_fuel : Error

-- The answer of the files API, decoded.
pub record Response : Type 0 where
  pub content : Bytes
  pub offset : ℤ

pub record Url : Type 0 where
  pub scheme : Bytes
  pub host : Bytes
  pub path : Bytes

pub data QueryValue : Type 0 where
  text : Bytes → QueryValue
  int : ℤ → QueryValue

abbrev pub Query : Type 0
Query = List (Bytes × QueryValue)

abbrev pub Header : Type 0
Header = List (Bytes × Bytes)

pub record Request : Type 0 where
  pub url : Url
  pub query : Query
  pub header : Header

pub record HttpResponse : Type 0 where
  pub status : ℕ
  pub header : Header
  pub body : Bytes

pub record SandboxFile : Type 0 where
  pub gid : Bytes
  pub mode : Bytes
  pub mtime : ℕ
  pub nlink : ℕ
  pub path : Bytes
  pub size : ℕ
  pub uid : Bytes

-- What the reader calls: http.NewRequest (the error, if it fails), Client.Do, the decoding of a body
-- and json.Marshal of the object that jsonifyLine builds from the listed fields. Time-outs are errors
-- of `send`. Their errors are texts. The
-- decoding of a list of files is given UnmarshalJSON of the time of a file.
pub record Externals : Type 0 where
  pub new_request : Url → Query → Option Bytes
  pub send : Request → Result Bytes HttpResponse
  pub decode : Bytes → Result Bytes Response
  pub decode_files : (Bytes → Option ℕ) → Bytes → Result Bytes (List SandboxFile)
  pub marshal_fields : List (Bytes × Bytes) → Result Bytes Bytes

-- An error of those packages, passed on.
abbrev pub lift {ℓ} : {A : Type ℓ} → Result Bytes A → Result Error A
lift (ok a) = ok a
lift (err e) = err (foreign e)

pub record Line : Type 0 where
  pub message : Bytes
  pub offset : ℤ
  pub size : ℕ

pub data ReadDirection : Type 0 where
  top_to_bottom bottom_to_top : ReadDirection

-- The formatter functions of format.go, by name.
pub data Formatter : Type 0 where
  line_format sse_format : Formatter

pub record ReadManager : Type 0 where
  pub client : Externals
  pub read_endpoint : Url
  pub sandbox_path : Bytes
  pub header : Header
  pub read_direction : ReadDirection
  pub read_limit : ℤ
  pub skip : ℤ
  pub skipped : ℤ
  pub file : Bytes
  pub offset : ℤ
  pub lines : List Line
  pub read_lines : ℤ
  pub stream : Bool
  pub format_fn : Formatter
  pub agent_id : Bytes
  pub framework_id : Bytes
  pub executor_id : Bytes
  pub container_id : Bytes
