-- ===== src/Files/Saving.antt =====
-- What a map is that was written to a JSON file and read from it again.
use gocs.Prelude.{◌≡◌, inl, inr, none, some, [], All, Bytes, bytes_eq, arith, Option-cases}
use gocs.Prelude.Dict.{Dict, lookup}
use gocs.Errors.{ok, Result-cases}
use gocs.Files.{Json, File, read_json, write_json}

module _ {V : Type 0} (json : Json (Dict Bytes V)) where
  -- A write without an error has written its text.
  abbrev pub IsWrite : Type 0
  IsWrite = (text : Bytes) → (json.write text).0 ≡ none → (json.write text).1 ≡ some text

-- `IsEntry` says of which entries encoding/json keeps the text.
module _ {V : Type 0} (IsEntry : Bytes × V → Type 0) (json : Json (Dict Bytes V)) where
  -- What the code relies on in encoding/json: the text of a map of such entries is decoded into an
  -- empty map without an error, to the same entries.
  abbrev pub IsCodec : Type 0
  IsCodec =
      (m : Dict Bytes V) (text k : Bytes)
      → All IsEntry m
      → json.encode m ≡ ok text
      → ((json.decode [] text).0 ≡ none) × (lookup k (json.decode [] text).1 ≡ lookup k m)

  pub saved-read :
      (file : File) (m : Dict Bytes V) (k : Bytes)
      → IsCodec
      → IsWrite json
      → All IsEntry m
      → (write_json json file m).0 ≡ none
      → ((read_json json (write_json json file m).1 []).0 ≡ none)
        × (lookup k (read_json json (write_json json file m).1 []).1 ≡ lookup k m)
  unfolding write_json read_json
  saved-read file m k codec writes entries h = elim (Result-cases (json.encode m)) [
    | inl (e, p) ↦ absurd (ground arith)
    | inr (text, p) ↦ elim (Option-cases (json.write text).0) [
      | inl w ↦ ground (arith, p, w, writes text w, codec m text k entries p)
      | inr (e, w) ↦ absurd (ground arith)
    ]
  ]
