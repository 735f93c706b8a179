-- ===== src/Api/Upload.antt =====
-- backend/app/api/routers/scan.py: the golden files that can be picked, and the upload of one of them to the
-- directories of the SFTP server.
use document_classifier.Prelude.{
  ℕ, ◌+◌, ◌/◌, Bool, true, false, ◌&&◌, ◌||◌, Option, none, some, List, [], ◌∷◌, reverse, String,
  codes, ltb, leb, ◌==◌, if◌then◌else◌,
}
use document_classifier.Exec.{Error, Result, ok, err, Exec, os_error}
use document_classifier.Vault.{Secret, get_sftp_credentials}
use document_classifier.Blob.{Bytes}
use document_classifier.Ingest.{split_slash, components}
use document_classifier.Sftp.Client.{
  Node, Listing, file, directory, FilePath, child, lookup, split_path, add_child, replace_child,
  update, or_fail, make_dir,
}

pub record GoldenFile : Type 0 where
  pub name : String
  pub size_kb : ℕ

-- An entry of the directory of the golden images.
pub record LocalEntry : Type 0 where
  pub name : String
  pub is_file : Bool
  pub size : ℕ

abbrev lower : ℕ → ℕ
lower c = if leb 65 c && leb c 90 then c + 32 else c

-- `f.suffix.lower() == ".tif"`: something stands before the dot.
unfoldable pub has_tif_suffix : String → Bool
has_tif_suffix name = elim (reverse (codes name)) [
  | f ∷ i ∷ t ∷ dot ∷ before ∷ rest ↦
      lower f == 102 && lower i == 105 && lower t == 116 && dot == 46
  | _ ↦ false
]

-- The order of Python's texts, by their code points.
abbrev codes_le : List ℕ → List ℕ → Bool
codes_le [] ys = true
codes_le (x ∷ xs) [] = false
codes_le (x ∷ xs) (y ∷ ys) = ltb x y || (x == y && codes_le xs ys)

abbrev insert_entry : LocalEntry → List LocalEntry → List LocalEntry
insert_entry e [] = e ∷ []
insert_entry e (f ∷ files) =
    let others = insert_entry e files in
    if codes_le (codes e.name) (codes f.name) then e ∷ f ∷ files else f ∷ others

abbrev golden_entries : List LocalEntry → List LocalEntry
golden_entries [] = []
golden_entries (e ∷ entries) =
    let others = golden_entries entries in
    if e.is_file && has_tif_suffix e.name then insert_entry e others else others

abbrev golden_file : LocalEntry → GoldenFile
golden_file e = record {
  name = e.name;
  size_kb = if ltb (e.size / 1024) 1 then 1 else e.size / 1024;
}

abbrev golden_files : List LocalEntry → List GoldenFile
golden_files [] = []
golden_files (e ∷ entries) = golden_file e ∷ golden_files entries

-- none stands for a directory that is not there.
unfoldable pub list_golden_files : Option (List LocalEntry) → List GoldenFile
unfolding has_tif_suffix
list_golden_files none = []
list_golden_files (some entries) = golden_files (golden_entries entries)

-- The module's `_SFTP_CREDS`, and the server.
pub record ScanState : Type 0 where
  pub sftp_creds : Option (String × String)
  pub server : Node

abbrev path_of : String → FilePath
path_of text = components (split_slash text)

-- `sftp.put`: the directory must be there; a file of the name is written over.
abbrev put_child : String → Bytes → Listing → Listing
put_child name bytes listing = elim (child name listing) [
  | none ↦ add_child name (file bytes) listing
  | some _ ↦ replace_child name (file bytes) listing
]

unfoldable pub put_file : Node → FilePath → Bytes → Result Node
put_file root path bytes = elim (lookup path root) [
  | some (directory _) ↦ err os_error
  | _ ↦ elim (split_path path) [
    | none ↦ err os_error
    | some (parent, name) ↦ or_fail (update (put_child name bytes) parent root)
  ]
]

-- `contextlib.suppress(OSError)` around `sftp.mkdir`
unfoldable pub try_make_dir : Node → FilePath → Node
try_make_dir root path = elim (make_dir root path) [ ok root' ↦ root' | err _ ↦ root ]

module _ (vault : String → Result (Option Secret)) (of_client : Error → Bool)
    (connect : String × String → Result (Unit {0})) (read_local : String → Result Bytes) where
  unfoldable pub get_sftp_creds : Exec ScanState (String × String)
  get_sftp_creds s = elim s.sftp_creds [
    | some creds ↦ (ok creds, s)
    | none ↦ elim (get_sftp_credentials vault of_client) [
      | ok creds ↦ (ok creds, record s { sftp_creds = some creds })
      | err e ↦ (err e, s)
    ]
  ]

  -- Behind the connection: what `mkdir` made stays where the upload fails.
  unfoldable pub upload_on : String → String → String → Exec ScanState (Unit {0})
  upload_on local_path remote_dir remote_path s =
      let root = try_make_dir s.server (path_of remote_dir) in
      elim (read_local local_path) [
        | err e ↦ (err e, record s { server = root })
        | ok bytes ↦ elim (put_file root (path_of remote_path) bytes) [
          | err e ↦ (err e, record s { server = root })
          | ok root' ↦ (ok tt, record s { server = root' })
        ]
      ]

  unfoldable pub upload_file : String → String → String → Exec ScanState (Unit {0})
  upload_file local_path remote_dir remote_path s =
      let (r, s') = get_sftp_creds s in
      elim r [
        | err e ↦ (err e, s')
        | ok creds ↦ elim (connect creds) [
          | err e ↦ (err e, s')
          | ok _ ↦ upload_on local_path remote_dir remote_path s'
        ]
      ]
