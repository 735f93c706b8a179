-- ===== src/Sftp/Walk.antt =====
-- The walk through the directories of an SFTP server, against a list of the files below a directory.
use document_classifier.Prelude.{
  ℕ, zero, suc, ◌+◌, ◌≤◌, ◌<◌, ◌≡◌, refl, sym, ap, ◌∙◌, Bool-cases, inl, inr, Option-cases, none,
  some, List, [], ◌∷◌, ◌++◌, String, str_eq, eq_iff, All, arith,
}
use document_classifier.Exec.{ok, err, os_error}
use document_classifier.Blob.{Bytes}
use document_classifier.Sftp.Client.{
  Node, Listing, file, directory, nil, entry, FilePath, child, child_of, lookup, listdir, and_then,
  walk_entries, walk_files, fetch_file,
}

-- The files below a directory, in the order of its entries.
abbrev pub files_below : FilePath → Listing → List (FilePath × Bytes)
files_below path nil = []
files_below path (entry name (directory listing) rest) =
    files_below (path ++ name ∷ []) listing ++ files_below path rest
files_below path (entry name (file bytes) rest) = (path ++ name ∷ [], bytes) ∷ files_below path rest

abbrev pub paths_of : List (FilePath × Bytes) → List FilePath
paths_of [] = []
paths_of ((path, bytes) ∷ files) = path ∷ paths_of files

-- No directory has two entries of one name.
abbrev pub HasNames : Listing → Type 0
HasNames nil = Unit
HasNames (entry name (directory listing) rest) =
    (child name rest ≡ none) × HasNames listing × HasNames rest
HasNames (entry name (file bytes) rest) = (child name rest ≡ none) × Unit {0} × HasNames rest

-- How many directories there are below.
abbrev pub directories : Listing → ℕ
directories nil = 0
directories (entry name (directory listing) rest) = suc (directories listing + directories rest)
directories (entry name (file bytes) rest) = directories rest

-- The entries of the second are what the first has under their names.
abbrev AreIn : Listing → Listing → Type 0
AreIn all nil = Unit
AreIn all (entry name node rest) = (child name all ≡ some node) × AreIn all rest

AreIn-entry :
    (all some_of : Listing) (name : String) (node : Node)
    → child name some_of ≡ none
    → AreIn all some_of
    → AreIn (entry name node all) some_of
AreIn-entry all nil name node fresh h = tt
AreIn-entry all (entry n d rest) name node fresh h = elim (Bool-cases (str_eq n name)) [
  | inl same ↦ absurd (ground arith)
  | inr other ↦ elim (Bool-cases (str_eq name n)) [
    | inl same ↦ absurd (ground (arith, eq_iff name n, eq_iff n name))
    | inr differ ↦ (ground arith, AreIn-entry all rest name node (ground arith) h.1)
  ]
]

pub child-here :
    (name : String) (node : Node) (rest : Listing) → child name (entry name node rest) ≡ some node
child-here name node rest = rw ((eq_iff name name).1 refl) refl

AreIn-self : (listing : Listing) → HasNames listing → AreIn listing listing
AreIn-self nil h = tt
AreIn-self (entry name (directory below) rest) h = (
  child-here name (directory below) rest,
  AreIn-entry rest rest name (directory below) h.0 (AreIn-self rest h.2),
)
AreIn-self (entry name (file bytes) rest) h = (
  child-here name (file bytes) rest,
  AreIn-entry rest rest name (file bytes) h.0 (AreIn-self rest h.2),
)

pub lookup-append :
    (path : FilePath) (name : String) (root : Node) (listing : Listing)
    → lookup path root ≡ some (directory listing)
    → lookup (path ++ name ∷ []) root ≡ child name listing
lookup-append [] name (file bytes) listing h = absurd (ground arith)
lookup-append [] name (directory l) listing h = elim (Option-cases (child name l)) [
  | inl missing ↦ ground arith
  | inr (node, there) ↦ ground arith
]
lookup-append (n ∷ path) name root listing h = elim (Option-cases (child_of n root)) [
  | inl missing ↦ absurd (ground arith)
  | inr (node, there) ↦
      ap (λ o. elim o [ none ↦ none | some m ↦ lookup (path ++ name ∷ []) m ]) there
      ∙ lookup-append path name node listing (ground arith)
]

All-append : {A : Type 0} (P : A → Type 0) (xs ys : List A) → All P xs → All P ys → All P (xs ++ ys)
All-append P [] ys h k = k
All-append P (x ∷ xs) ys h k = (h.0, All-append P xs ys h.1 k)

paths-append : (xs ys : List (FilePath × Bytes)) → paths_of (xs ++ ys) ≡ paths_of xs ++ paths_of ys
paths-append [] ys = refl
paths-append ((path, bytes) ∷ xs) ys = ap (λ ps. path ∷ ps) (paths-append xs ys)

module _ (root : Node) where
  -- A file of the list, at its path.
  abbrev pub IsServed : FilePath × Bytes → Type 0
  IsServed f = fetch_file root f.0 ≡ ok f.1

  files-IsServed :
      (path : FilePath) (all some_of : Listing)
      → lookup path root ≡ some (directory all)
      → AreIn all some_of
      → HasNames some_of
      → All IsServed (files_below path some_of)
  unfolding fetch_file
  files-IsServed path all nil h k u = tt
  files-IsServed path all (entry name (directory below) rest) h k u =
      let there : lookup (path ++ name ∷ []) root ≡ some (directory below) =
        lookup-append path name root all h ∙ k.0 in
      All-append IsServed (files_below (path ++ name ∷ []) below) (files_below path rest)
        (files-IsServed (path ++ name ∷ []) below below there (AreIn-self below u.1) u.1)
        (files-IsServed path all rest h k.1 u.2)
  files-IsServed path all (entry name (file bytes) rest) h k u =
      let there : lookup (path ++ name ∷ []) root ≡ some (file bytes) =
        lookup-append path name root all h ∙ k.0 in
      (ground arith, files-IsServed path all rest h k.1 u.2)

  -- The walk of every directory below, by the fuel that is left.
  abbrev Walks : ℕ → Type 0
  Walks fuel =
      (path : FilePath) (listing : Listing)
      → lookup path root ≡ some (directory listing)
      → HasNames listing
      → directories listing < fuel
      → walk_files fuel root path ≡ some (ok (paths_of (files_below path listing)))

  entries-Walks :
      (fuel : ℕ) (path : FilePath) (all some_of : Listing)
      → Walks fuel
      → lookup path root ≡ some (directory all)
      → AreIn all some_of
      → HasNames some_of
      → directories some_of ≤ fuel
      → walk_entries (walk_files fuel root) path some_of
        ≡ some (ok (paths_of (files_below path some_of)))
  unfolding walk_entries
  entries-Walks fuel path all nil below h k u few = refl
  entries-Walks fuel path all (entry name (directory listing) rest) below h k u few =
      let there : lookup (path ++ name ∷ []) root ≡ some (directory listing) =
        lookup-append path name root all h ∙ k.0 in
      let first = below (path ++ name ∷ []) listing there u.1 (omega arith) in
      let others = entries-Walks fuel path all rest below h k.1 u.2 (omega arith) in
      ap (λ x. and_then x (walk_entries (walk_files fuel root) path rest)) first
      ∙ ap (and_then (some (ok (paths_of (files_below (path ++ name ∷ []) listing))))) others
      ∙ ap (λ ps. some (ok ps))
          (sym (paths-append (files_below (path ++ name ∷ []) listing) (files_below path rest)))
  entries-Walks fuel path all (entry name (file bytes) rest) below h k u few =
      let others = entries-Walks fuel path all rest below h k.1 u.2 few in
      ap (and_then (some (ok ((path ++ name ∷ []) ∷ [])))) others

  walks : (fuel : ℕ) → Walks fuel
  unfolding walk_files listdir
  walks zero path listing h u few = absurd (omega arith)
  walks (suc fuel) path listing h u few =
      let inside =
        entries-Walks fuel path listing listing (walks fuel) h (AreIn-self listing u) u
          (omega arith) in
      let listed : listdir root path ≡ ok listing =
        ap (λ o. elim o [ some (directory l) ↦ ok l | _ ↦ err os_error ]) h in
      ap (λ r. elim r [ err e ↦ some (err e) | ok l ↦ walk_entries (walk_files fuel root) path l ])
        listed
      ∙ inside

  -- Where no directory has two entries of one name, the walk from a directory ends, given more fuel than
  -- there are directories below it, and lists exactly the files below it, in order; and every path that
  -- it lists can be fetched, with the bytes of its file.
  pub walk_files_lem :
      (path : FilePath) (listing : Listing) (fuel : ℕ)
      → lookup path root ≡ some (directory listing)
      → HasNames listing
      → directories listing < fuel
      → (walk_files fuel root path ≡ some (ok (paths_of (files_below path listing))))
        × All IsServed (files_below path listing)
  walk_files_lem path listing fuel h u few = (
    walks fuel path listing h u few,
    files-IsServed path listing listing h (AreIn-self listing u) u,
  )
