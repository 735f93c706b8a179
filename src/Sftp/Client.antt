-- ===== src/Sftp/Client.antt =====
-- The calls of backend/app/infra/sftp.py on a server, which is a tree of directories. A path is the list of
-- its names: `posixpath.join` adds a name at its end, and `posixpath.basename` is the last one.
use document_classifier.Prelude.{
  ℕ, zero, suc, Option, none, some, List, [], ◌∷◌, ◌++◌, String, str_eq, if◌then◌else◌,
}
use document_classifier.Exec.{Result, ok, err, os_error}
use document_classifier.Blob.{Bytes}

mutual
  pub data Node : Type 0 where
    file : Bytes → Node
    directory : Listing → Node

  pub data Listing : Type 0 where
    nil : Listing
    entry : String → Node → Listing → Listing

abbrev pub FilePath : Type 0
FilePath = List String

abbrev pub child : String → Listing → Option Node
child name nil = none
child name (entry n node rest) = if str_eq n name then some node else child name rest

abbrev pub child_of : String → Node → Option Node
child_of name (file bytes) = none
child_of name (directory listing) = child name listing

-- What the server finds at a path.
abbrev pub lookup : FilePath → Node → Option Node
lookup [] node = some node
lookup (name ∷ path) node = elim (child_of name node) [ none ↦ none | some n ↦ lookup path n ]

-- `sftp.listdir_attr(directory)`
unfoldable pub listdir : Node → FilePath → Result Listing
listdir root path = elim (lookup path root) [
  | some (directory listing) ↦ ok listing
  | _ ↦ err os_error
]

-- A list of paths, or an error, where the fuel was enough.
abbrev pub Found : Type 0
Found = Option (Result (List FilePath))

abbrev pub and_then : Found → Found → Found
and_then (some (ok paths)) (some (ok more)) = some (ok (paths ++ more))
and_then (some (ok paths)) other = other
and_then stopped other = stopped

-- The loop of `_walk_files` over the entries of a directory; `again` is the call for a directory below.
unfoldable pub walk_entries : (FilePath → Found) → FilePath → Listing → Found
walk_entries again path nil = some (ok [])
walk_entries again path (entry name (directory listing) rest) =
    and_then (again (path ++ name ∷ [])) (walk_entries again path rest)
walk_entries again path (entry name (file bytes) rest) =
    and_then (some (ok ((path ++ name ∷ []) ∷ []))) (walk_entries again path rest)

-- `_walk_files`, on fuel for the depth: none where it runs out.
unfoldable pub walk_files : ℕ → Node → FilePath → Found
walk_files zero root path = none
walk_files (suc fuel) root path = elim (listdir root path) [
  | err e ↦ some (err e)
  | ok listing ↦ walk_entries (walk_files fuel root) path listing
]

-- `_fetch_sync`
unfoldable pub fetch_file : Node → FilePath → Result Bytes
fetch_file root path = elim (lookup path root) [ some (file bytes) ↦ ok bytes | _ ↦ err os_error ]

-- A path as its directory and its name.
abbrev pub split_path : FilePath → Option (FilePath × String)
split_path [] = none
split_path (name ∷ []) = some ([], name)
split_path (first ∷ next ∷ path) = elim (split_path (next ∷ path)) [
  | none ↦ none
  | some (p, name) ↦ some (first ∷ p, name)
]

abbrev pub add_child : String → Node → Listing → Listing
add_child name node nil = entry name node nil
add_child name node (entry n d rest) = entry n d (add_child name node rest)

abbrev pub remove_child : String → Listing → Listing
remove_child name nil = nil
remove_child name (entry n d rest) =
    let others = remove_child name rest in if str_eq n name then others else entry n d others

abbrev pub replace_child : String → Node → Listing → Listing
replace_child name node nil = nil
replace_child name node (entry n d rest) =
    let others = replace_child name node rest in
    if str_eq n name then entry n node rest else entry n d others

-- The directory at a path, changed.
abbrev pub update : (Listing → Listing) → FilePath → Node → Option Node
update f path (file bytes) = none
update f [] (directory listing) = some (directory (f listing))
update f (name ∷ path) (directory listing) = elim (child name listing) [
  | none ↦ none
  | some node ↦ elim (update f path node) [
    | none ↦ none
    | some node' ↦ some (directory (replace_child name node' listing))
  ]
]

abbrev pub or_fail : Option Node → Result Node
or_fail none = err os_error
or_fail (some node) = ok node

-- `sftp.mkdir`: a name that is taken is an error.
unfoldable pub make_dir : Node → FilePath → Result Node
make_dir root path = elim (lookup path root) [
  | some _ ↦ err os_error
  | none ↦ elim (split_path path) [
    | none ↦ err os_error
    | some (parent, name) ↦ or_fail (update (add_child name (directory nil)) parent root)
  ]
]

-- `sftp.rename`: there must be something at the old path, and nothing at the new one.
unfoldable pub rename : Node → FilePath → FilePath → Result Node
rename root old new = elim (lookup old root) [
  | none ↦ err os_error
  | some node ↦ elim (lookup new root) [
    | some _ ↦ err os_error
    | none ↦ elim (split_path old) [
      | none ↦ err os_error
      | some (from_dir, old_name) ↦ elim (split_path new) [
        | none ↦ err os_error
        | some (to_dir, new_name) ↦ elim (update (remove_child old_name) from_dir root) [
          | none ↦ err os_error
          | some root' ↦ or_fail (update (add_child new_name node) to_dir root')
        ]
      ]
    ]
  ]
]

unfoldable pub ensure_dir : Node → FilePath → Result Node
ensure_dir root path = elim (lookup path root) [ some _ ↦ ok root | none ↦ make_dir root path ]

-- `posixpath.basename`
abbrev pub basename : FilePath → String
basename path = elim (split_path path) [ none ↦ "" | some (parent, name) ↦ name ]

-- `_move_sync`
unfoldable pub move_file : Node → FilePath → FilePath → Result (Unit {0}) × Node
move_file root remote_path target_dir = elim (ensure_dir root target_dir) [
  | err e ↦ (err e, root)
  | ok root' ↦ elim (rename root' remote_path (target_dir ++ basename remote_path ∷ [])) [
    | err e ↦ (err e, root')
    | ok root'' ↦ (ok tt, root'')
  ]
]
