-- ===== src/Sftp/Tree.antt =====
-- Changes of the directories of a server.
use document_classifier.Prelude.{
  ◌≡◌, refl, sym, ap, ◌∙◌, false, Bool-cases, inl, inr, Option-cases, none, some, [], ◌∷◌, ◌++◌,
  String, str_eq, eq_iff, arith,
}
use document_classifier.Sftp.Client.{
  Node, Listing, file, directory, nil, entry, FilePath, child, child_of, lookup, split_path,
  add_child, remove_child, replace_child, update,
}
use document_classifier.Sftp.Walk.{child-here}

pub child-replace_child :
    (name : String) (node old : Node) (listing : Listing)
    → child name listing ≡ some old
    → child name (replace_child name node listing) ≡ some node
child-replace_child name node old nil h = absurd (ground arith)
child-replace_child name node old (entry n d rest) h = elim (Bool-cases (str_eq n name)) [
  | inl same ↦ ground arith
  | inr other ↦ ground (arith, child-replace_child name node old rest)
]

child-replace_other :
    (name other : String) (node : Node) (listing : Listing)
    → str_eq name other ≡ false
    → child other (replace_child name node listing) ≡ child other listing
child-replace_other name other node nil h = refl
child-replace_other name other node (entry n d rest) h = elim (Bool-cases (str_eq n name)) [
  | inl same ↦ let e : str_eq n other ≡ false = rw ((eq_iff n name).0 same) h in ground arith
  | inr differ ↦ ground (arith, child-replace_other name other node rest)
]

pub child-add_child :
    (name : String) (node : Node) (listing : Listing)
    → child name listing ≡ none
    → child name (add_child name node listing) ≡ some node
child-add_child name node nil h = child-here name node nil
child-add_child name node (entry n d rest) h = elim (Bool-cases (str_eq n name)) [
  | inl same ↦ absurd (ground arith)
  | inr other ↦ ground (arith, child-add_child name node rest)
]

pub child-remove_child :
    (name : String) (listing : Listing) → child name (remove_child name listing) ≡ none
child-remove_child name nil = refl
child-remove_child name (entry n d rest) = elim (Bool-cases (str_eq n name)) [
  | inl same ↦ ground (arith, child-remove_child name rest)
  | inr other ↦ ground (arith, child-remove_child name rest)
]

pub split_path-append :
    (path : FilePath) (name : String) → split_path (path ++ name ∷ []) ≡ some (path, name)
split_path-append [] name = refl
split_path-append (x ∷ []) name = refl
split_path-append (x ∷ y ∷ path) name = ground (arith, split_path-append (y ∷ path) name)

-- A change of a directory that is there.
pub update_lem :
    (f : Listing → Listing) (path : FilePath) (root : Node) (listing : Listing)
    → lookup path root ≡ some (directory listing)
    → (root' : Node) × (update f path root ≡ some root')
      × (lookup path root' ≡ some (directory (f listing)))
update_lem f [] (file bytes) listing h = absurd (ground arith)
update_lem f [] (directory l) listing h =
    let same : l ≡ listing = ground arith in
    (directory (f l), refl, ap (λ x. some (directory (f x))) same)
update_lem f (name ∷ path) (file bytes) listing h = absurd (ground arith)
update_lem f (name ∷ path) (directory l) listing h = elim (Option-cases (child name l)) [
  | inl missing ↦ absurd (ground arith)
  | inr (node, there) ↦
      let (node', updated, found) = update_lem f path node listing (ground arith) in
      (
        directory (replace_child name node' l),
        ground arith,
        ap (λ o. elim o [ none ↦ none | some n ↦ lookup path n ])
              (child-replace_child name node' node l there)
            ∙ found,
      )
]

-- It keeps what the root has under another name.
pub update_other :
    (f : Listing → Listing) (name other : String) (path : FilePath) (root root' : Node)
    → update f (name ∷ path) root ≡ some root'
    → str_eq name other ≡ false
    → child_of other root' ≡ child_of other root
update_other f name other path (file bytes) root' h differ = absurd (ground arith)
update_other f name other path (directory l) root' h differ = elim (Option-cases (child name l)) [
  | inl missing ↦ absurd (ground arith)
  | inr (node, there) ↦ elim (Option-cases (update f path node)) [
    | inl failed ↦ absurd (ground arith)
    | inr (node', updated) ↦
        let same : directory (replace_child name node' l) ≡ root' = ground arith in
        sym (ap (child_of other) same) ∙ child-replace_other name other node' l differ
  ]
]
