-- ===== src/Runtime.antt =====
-- packages/runtime/src/fs-adapter.js: FsAdapter, a file for each key. A directory is the Map from its
-- files' names to their contents. encodeURIComponent(), decodeURIComponent(), JSON and the order in
-- which readdir() lists the names are an interface, and so is which names the file system takes. `none`
-- is an exception, which changes nothing: of the failures of a disk only the refused name is modelled,
-- not a full disk or a file that is gone between two calls.
pub mod Names
pub mod Represents
pub mod Refines
use mathlib.Core.Option
use qu_v.Prelude.{
  ℕ, Bool, true, false, Text, codes, Option, none, some, List, [], ◌∷◌, ◌++◌, if◌then◌else◌,
  text_eq,
}
use qu_v.Core.JsMap
use qu_v.Core.JsMap.{Entries, find}
use qu_v.Core.Listing.{select_keys}

-- The file system's directory.
abbrev pub Dir : Type 0
Dir = Entries Text

-- `takes`: the file system has no objection to a file's name. With one that is too long readFile(),
-- writeFile() and rm() fail alike, with ENAMETOOLONG.
pub record Platform (V : Type 0) : Type 0 where
  pub encode : Text → Option Text
  pub decode : Text → Option Text
  pub stringify : V → Text
  pub parse : Text → Option V
  pub readdir : Dir → List Text
  pub takes : Text → Bool

abbrev pub extension : Text
extension = codes ".json"

-- name.endsWith('.json'), with name.replace(/\.json$/, '')
unfoldable pub strip_json : Text → Option Text
strip_json [] = none
strip_json (c ∷ cs) =
    let rest = strip_json cs in
    if text_eq (c ∷ cs) extension then some [] else Option.map (λ t. c ∷ t) rest

abbrev pub bind : {A B : Type 0} → Option A → (A → Option B) → Option B
bind none f = none
bind (some a) f = f a

module _ {V : Type 0} (p : Platform V) where
  -- filenameFor(key)
  unfoldable pub filename_for : Text → Option Text
  filename_for k = bind (p.encode k) (λ n. some (n ++ extension))

  -- The file that filenameFor(key) names, where the file system takes the name.
  unfoldable pub file_of : Text → Option Text
  unfolding filename_for
  file_of k = bind (filename_for k) (λ n. if p.takes n then some n else none)

  -- put(key, value)
  unfoldable pub put : Dir → Text → V → Option Dir
  unfolding file_of
  put d k v = bind (file_of k) (λ n. some (JsMap.put d n (p.stringify v)))

  -- JSON.parse() of a file that is there
  unfoldable pub parse_file : Option Text → Option (Option V)
  parse_file none = some none
  parse_file (some raw) = bind (p.parse raw) (λ v. some (some v))

  -- get(key); the inner none is undefined
  unfoldable pub get : Dir → Text → Option (Option V)
  unfolding file_of find parse_file
  get d k = bind (file_of k) (λ n. parse_file (find d n))

  -- delete(key)
  unfoldable pub delete : Dir → Text → Option Dir
  unfolding file_of
  delete d k = bind (file_of k) (λ n. some (JsMap.delete d n))

  -- filenames.filter((name) => name.endsWith('.json')).map(keyFromFilename)
  unfoldable pub file_keys : List Text → Option (List Text)
  unfolding strip_json
  file_keys [] = some []
  file_keys (name ∷ names) =
      let rest = file_keys names in
      elim (strip_json name) [
        | none ↦ rest
        | some n ↦ bind (p.decode n) (λ k. bind rest (λ ks. some (k ∷ ks)))
      ]

  -- The loop of list() over the selected keys.
  unfoldable pub entries : Dir → List Text → Option (List (Text × Option V))
  unfolding get
  entries d [] = some []
  entries d (k ∷ ks) =
      let rest = entries d ks in bind (get d k) (λ v. bind rest (λ es. some ((k, v) ∷ es)))

  -- list({ prefix, limit, reverse })
  unfoldable pub list : Dir → Text → Option ℕ → Bool → Option (List (Text × Option V))
  unfolding file_keys entries
  list d prefix limit rev =
      bind (file_keys (p.readdir d)) (λ ks. entries d (select_keys prefix limit rev ks))
