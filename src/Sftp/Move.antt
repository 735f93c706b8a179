-- ===== src/Sftp/Move.antt =====
-- The moves of backend/app/infra/sftp.py on the directories of a server.
use document_classifier.Prelude.{
  ◌≡◌, refl, ap, ◌∙◌, false, ◌⊎◌, inl, inr, Option-cases, none, some, [], ◌∷◌, ◌++◌, String, str_eq,
  eq_iff, arith,
}
use document_classifier.Exec.{Result, ok, err, os_error}
use document_classifier.Sftp.Client.{
  Node, Listing, directory, FilePath, child, lookup, split_path, add_child, remove_child, update,
  make_dir, rename, ensure_dir, basename, move_file,
}
use document_classifier.Sftp.Walk.{lookup-append}
use document_classifier.Sftp.Tree.{
  child-add_child, child-remove_child, split_path-append, update_lem, update_other,
}

rename_taken :
    (root : Node) (old new : FilePath) (node other : Node)
    → lookup old root ≡ some node
    → lookup new root ≡ some other
    → rename root old new ≡ err os_error
unfolding rename
rename_taken root old new node other there taken = ground arith

rename_lem :
    (root root' root'' : Node) (old new from_dir to_dir : FilePath) (old_name new_name : String)
    (node : Node)
    → lookup old root ≡ some node
    → lookup new root ≡ none
    → split_path old ≡ some (from_dir, old_name)
    → split_path new ≡ some (to_dir, new_name)
    → update (remove_child old_name) from_dir root ≡ some root'
    → update (add_child new_name node) to_dir root' ≡ some root''
    → rename root old new ≡ ok root''
unfolding rename
rename_lem root root' root'' old new from_dir to_dir old_name new_name node a b c d e f =
    ground arith

move_file-rename :
    (root there : Node) (path target new : FilePath) (name : String) (parent : FilePath)
    → lookup target root ≡ some there
    → split_path path ≡ some (parent, name)
    → target ++ name ∷ [] ≡ new
    → move_file root path target
      ≡ elim (rename root path new) [ err e ↦ (err e, root) | ok root' ↦ (ok tt, root') ]
unfolding move_file ensure_dir
move_file-rename root there path target new name parent a b c =
    let kept : ensure_dir root target ≡ ok root =
      ap (λ o. elim o [ some _ ↦ ok root | none ↦ make_dir root target ]) a in
    let base : basename path ≡ name = ap (λ o. elim o [ none ↦ "" | some (parent, n) ↦ n ]) b in
    ap
      (λ r. elim r [
        | err e ↦ (err e, root)
        | ok root' ↦ elim (rename root' path (target ++ basename path ∷ [])) [
          | err e ↦ (err e, root')
          | ok root'' ↦ (ok tt, root'')
        ]
      ])
      kept
    ∙ ap (λ q. elim (rename root path q) [ err e ↦ (err e, root) | ok root' ↦ (ok tt, root') ])
        (ap (λ n. target ++ n ∷ []) base ∙ c)

module _ (root : Node) (first : String) (path : FilePath) (name : String) (target : String)
    (apart : str_eq first target ≡ false) (source : Listing)
    (there : lookup (first ∷ path) root ≡ some (directory source)) (node : Node)
    (present : child name source ≡ some node) (done : Listing)
    (ready : lookup (target ∷ []) root ≡ some (directory done)) where
  abbrev remote_path : FilePath
  remote_path = (first ∷ path) ++ name ∷ []

  abbrev new_path : FilePath
  new_path = (target ∷ []) ++ name ∷ []

  abbrev ended : Result Node → Result (Unit {0}) × Node
  ended r = elim r [ err e ↦ (err e, root) | ok root' ↦ (ok tt, root') ]

  found : lookup remote_path root ≡ some node
  found = lookup-append (first ∷ path) name root source there ∙ present

  -- The move is a renaming, since its directory is there.
  renames : move_file root remote_path (target ∷ []) ≡ ended (rename root remote_path new_path)
  renames =
      move_file-rename root (directory done) remote_path (target ∷ []) new_path name (first ∷ path)
        ready (split_path-append (first ∷ path) name) refl

  -- Where the directory has an entry of the name already, the move raises an OSError and changes nothing.
  move_file_taken :
      (old : Node)
      → child name done ≡ some old
      → move_file root remote_path (target ∷ []) ≡ (err os_error, root)
  move_file_taken old taken =
      renames
      ∙ ap ended (
          rename_taken root remote_path new_path node old found
            (lookup-append (target ∷ []) name root done ready ∙ taken))

  module _ (free : child name done ≡ none) where
    apart' : str_eq target first ≡ false
    apart' = ground (arith, eq_iff first target, eq_iff target first)

    moved :
        (root' : Node) × (move_file root remote_path (target ∷ []) ≡ (ok tt, root'))
        × (lookup (first ∷ path) root' ≡ some (directory (remove_child name source)))
        × (lookup (target ∷ []) root' ≡ some (directory (add_child name node done)))
    moved =
        let (root1, taken_out, l1) =
          update_lem (remove_child name) (first ∷ path) root source there in
        let other1 =
          update_other (remove_child name) first target path root root1 taken_out apart in
        let ready1 : lookup (target ∷ []) root1 ≡ some (directory done) =
          ap (λ o. elim o [ none ↦ none | some n ↦ some n ]) other1 ∙ ready in
        let (root2, put_in, l2) =
          update_lem (add_child name node) (target ∷ []) root1 done ready1 in
        let other2 = update_other (add_child name node) target first [] root1 root2 put_in apart' in
        let gone : lookup (first ∷ path) root2 ≡ some (directory (remove_child name source)) =
          ap (λ o. elim o [ none ↦ none | some n ↦ lookup path n ]) other2 ∙ l1 in
        let renamed : rename root remote_path new_path ≡ ok root2 =
          rename_lem root root1 root2 remote_path new_path (first ∷ path) (target ∷ []) name name
            node found (lookup-append (target ∷ []) name root done ready ∙ free)
            (split_path-append (first ∷ path) name) refl taken_out put_in in
        (root2, renames ∙ ap ended renamed, gone, l2)

  -- Let a directory with the entry of a move, and the other directory that it moves to, be there, under two
  -- first names. Where the other directory has an entry of that name, the move raises an OSError and
  -- changes nothing. Otherwise it returns: the entry is gone from its path, and it is in the other
  -- directory under its name.
  pub move_file_lem :
      ((old : Node) × (child name done ≡ some old)
        × (move_file root remote_path (target ∷ []) ≡ (err os_error, root)))
      ⊎ ((root' : Node) × (child name done ≡ none)
          × (move_file root remote_path (target ∷ []) ≡ (ok tt, root'))
          × (lookup remote_path root' ≡ none)
          × (lookup new_path root' ≡ some node))
  move_file_lem = elim (Option-cases (child name done)) [
    | inr (old, taken) ↦ inl (old, taken, move_file_taken old taken)
    | inl free ↦
        let (root', returned, gone, put) = moved free in
        inr (
          root',
          free,
          returned,
          lookup-append (first ∷ path) name root' (remove_child name source) gone
              ∙ child-remove_child name source,
          lookup-append (target ∷ []) name root' (add_child name node done) put
              ∙ child-add_child name node done free,
        )
  ]
