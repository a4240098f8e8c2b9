-- ===== src/Files.antt =====
-- A store of files, shared by the parts that read and write some: the operating system's answers are a
-- parameter.
use nas_conn_plus.Base.{ℕ, Str, str_eq, Option, none, some, Map, get}

-- The files, and the calls that fail: `denied` is the error with which a file that is there cannot be read,
-- `hidden` the error of a lookup other than its absence, `write_fault` the error of opening a file to write it,
-- and `torn` the number of bytes after which a write to the opened file, or its `Close`, fails.
pub record Disk : Type 0 where
  pub files : Map Str Str
  pub denied : Str → Option Str
  pub hidden : Str → Option Str
  pub mkdir_fault : Str → Option Str
  pub write_fault : Str → Option Str
  pub torn : Str → Option ℕ

pub data Answer : Type 0 where
  found : Str → Answer
  missing : Answer
  fault : Str → Answer

-- `os.ReadFile`.
unfoldable pub read_file : Disk → Str → Answer
read_file d p = elim (d.hidden p) [
  | some e ↦ fault e
  | none ↦ elim (get p d.files) [
    | none ↦ missing
    | some text ↦ elim (d.denied p) [ none ↦ found text | some e ↦ fault e ]
  ]
]

-- `os.Stat`, which needs no permission to read.
unfoldable pub stat : Disk → Str → Answer
stat d p = elim (d.hidden p) [
  | some e ↦ fault e
  | none ↦ elim (get p d.files) [ none ↦ missing | some text ↦ found text ]
]
