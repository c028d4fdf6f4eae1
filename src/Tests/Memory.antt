-- ===== src/Tests/Memory.antt =====
-- A machine that keeps its files in a function and answers every request, for the tests.
use cacic_agente.Base.{
  ℕ, pos, refl, Bool, true, false, String, ◌===◌, Option, none, some, [], arith, if◌then◌else◌,
  is_some, clean,
}
use cacic_agente.Json.{Object, end, field, obj, str, arr, nil}
use cacic_agente.Machine.{Machine, Reply}
use cacic_agente.Machine.Laws.{IsLawful}

-- The content of a file: an object, or so many bytes with a digest.
pub data Content : Type 0 where
  object : Object → Content
  binary : ℕ → String → Content

abbrev pub Files : Type 0
Files = String → Option Content

abbrev put : String → Option Content → Files → Files
put p c d q = if q === p then c else d q

abbrev remove_file : Files → String → Bool × Files
remove_file d p = elim (d (clean p)) [ none ↦ (false, d) | some c ↦ (true, put (clean p) none d) ]

abbrev copy_file : Files → String → String → Bool × Files
copy_file d p t = elim (d (clean p)) [
  | none ↦ (false, d)
  | some c ↦ elim (d (clean t)) [ none ↦ (true, put (clean t) (some c) d) | some old ↦ (false, d) ]
]

abbrev bytes_size : Content → ℕ
bytes_size (object o) = 2
bytes_size (binary n s) = n

abbrev digest : Content → String
digest (object o) = "object"
digest (binary n s) = s

abbrev decoded : Content → Option Object
decoded (object o) = some o
decoded (binary n s) = none

abbrev pub a_computer : Object
a_computer =
    field "networkDevices" (arr nil)
      (field "operatingSystem" (obj (field "nomeOs" (str "Linux") end)) end)

abbrev pub an_answer : Object
an_answer = field "agentcomputer" (obj (field "applicationUrl" (str "host") end)) end

abbrev a_reply : Reply Content
a_reply = record { status = "200"; failure = none; content = object an_answer }

-- Seven days or more have passed since each day of the given text, and none since any other.
abbrev pub memory : Machine
memory = record {
  Bytes = Content;
  Disk = Files;
  read = λ d p. d (clean p);
  readable = λ d p. is_some (d (clean p));
  writable = λ d p. true;
  write = λ d p b. put (clean p) (some b) d;
  remove = remove_file;
  copy = copy_file;
  listing = λ d p. [];
  no_bytes = binary 0 "";
  size = bytes_size;
  md5 = digest;
  decode = decoded;
  encode = object;
  as_text = digest;
  valid_url = λ s. true;
  scheme = λ s. "http";
  authority = λ s. "host";
  path = λ s. s;
  post = λ rs. a_reply;
  get = λ rs. some (binary 5 "new");
  processes = [];
  today = "20/03/2015";
  days_since = λ s. if s === "10/03/2015" then pos 10 else pos 0;
  computer = a_computer;
}

pub memory-IsLawful : IsLawful memory
memory-IsLawful = record {
  read-write = λ d p b q. refl;
  read-remove_true = λ d p q h. ground arith;
  read-remove_false = λ d p q h. ground arith;
  read-copy_true = λ d p t q h. ground arith;
  read-copy_false = λ d p t q h. ground arith;
  decode-encode = λ o. refl;
}
