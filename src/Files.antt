-- ===== src/Files.antt =====
-- JSON files: ReadJSON and WriteJSON of core/utils.go. The codec of encoding/json and the writes of
-- the operating system are parameters.
pub mod Saving
use gocs.Prelude.{Option, none, some, Bytes, codes}
use gocs.Errors.{Error, external, Result, ok, err}

-- What a file holds; nothing where it cannot be read.
abbrev pub File : Type 0
File = Option Bytes

-- MarshalIndent, Unmarshal over the value that it is given, and WriteFile, with what the file then
-- holds.
pub record Json (A : Type 0) : Type 0 where
  pub encode : A → Result Bytes
  pub decode : A → Bytes → Option Error × A
  pub write : Bytes → Option Error × File

abbrev pub not_read : Error
not_read = external (codes "the file cannot be read")

module _ {A : Type 0} (json : Json A) where
  -- ReadJSON: the error, and the value.
  unfoldable pub read_json : File → A → Option Error × A
  read_json none v = (some not_read, v)
  read_json (some text) v = json.decode v text

  -- WriteJSON: the error, and what the file holds.
  unfoldable pub write_json : File → A → Option Error × File
  write_json file v = elim (json.encode v) [ err e ↦ (some e, file) | ok text ↦ json.write text ]
