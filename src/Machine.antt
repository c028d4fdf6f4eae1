-- ===== src/Machine.antt =====
-- What the agent runs on and does not implement: the file system, the network, the digest, the
-- JSON text format, the process table and the calendar. A development over the agent takes a
-- machine as a parameter.
pub mod Laws
use cacic_agente.Base.{ℕ, ℤ, Bool, String, Option, List}
use cacic_agente.Json.{Object}

-- The body of a request: a form, or a JSON object.
pub data Body : Type 0 where
  form : String → Body
  json : Object → Body
  nothing : Body

-- A request that went out, with the credentials that its address carries.
pub record Request : Type 0 where
  pub url : String
  pub user : String
  pub password : String
  pub body : Body

-- What stands in a `QNetworkReply` when the event loop was left. `failure` is `errorString()`, if
-- `error()` tells of an error. A reply that the timer cut off tells of none.
pub record Reply (Bytes : Type 0) : Type 0 where
  pub status : String
  pub failure : Option String
  pub content : Bytes

-- A `stat` file of /proc: it cannot be opened, does not begin as it should, or names a process.
pub data Stat : Type 0 where
  missing malformed : Stat
  named : String → Stat

pub record Machine : Type 1 where
  pub Bytes : Type 0
  pub Disk : Type 0
  -- The content of a file, if there is one under the path.
  pub read : Disk → String → Option Bytes
  -- Whether the file can be opened for reading, and for writing.
  pub readable : Disk → String → Bool
  pub writable : Disk → String → Bool
  pub write : Disk → String → Bytes → Disk
  -- `QFile::remove` and `QFile::copy`, with their results.
  pub remove : Disk → String → Bool × Disk
  pub copy : Disk → String → String → Bool × Disk
  -- The names of the executable files of a folder, in the order that the agent asks for.
  pub listing : Disk → String → List String
  pub no_bytes : Bytes
  pub size : Bytes → ℕ
  -- The MD5 digest in hexadecimal.
  pub md5 : Bytes → String
  -- `QJsonDocument::fromJson`, and `object()` of what was read; and `toJson`.
  pub decode : Bytes → Option Object
  pub encode : Object → Bytes
  pub as_text : Bytes → String
  -- Whether `QUrl::isValid`, and then `scheme()`, `authority()` and `path()`.
  pub valid_url : String → Bool
  pub scheme : String → String
  pub authority : String → String
  pub path : String → String
  -- What a request is answered, from all the requests up to it, the newest first.
  pub post : List Request → Reply Bytes
  pub get : List Request → Option Bytes
  -- The folders of /proc: `atol` of the name, and what its `stat` file holds.
  pub processes : List (ℤ × Stat)
  -- Today in the format dd/MM/yyyy, and the days from the day that a text names until today.
  pub today : String
  pub days_since : String → ℤ
  -- `CACIC_Computer::toJsonObject` at this moment.
  pub computer : Object
