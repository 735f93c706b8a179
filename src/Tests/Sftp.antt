-- ===== src/Tests/Sftp.antt =====
-- A walk through the directories of a server.
use document_classifier.Prelude.{◌≡◌, refl, ◌⊎◌, All, some, none, [], ◌∷◌, arith}
use document_classifier.Exec.{ok, err, os_error}
use document_classifier.Sftp.Client.{
  Node, Listing, file, directory, nil, entry, child, lookup, make_dir, ensure_dir, rename,
  move_file, walk_files,
}
use document_classifier.Sftp.Move.{move_file_lem}
use document_classifier.Sftp.Walk.{files_below, paths_of, IsServed, walk_files_lem}

abbrev incoming : Listing
incoming =
    entry "notes.txt" (file (8 ∷ [])) (
      entry "3" (directory (entry "9.tif" (file (7 ∷ [])) (entry "4.tif" (file (6 ∷ [])) nil))) nil)

abbrev server : Node
server = directory (entry "processed" (directory nil) (entry "incoming" (directory incoming) nil))

walk_files_lem_example :
    (walk_files 3 server ("incoming" ∷ [])
      ≡ some (ok (paths_of (files_below ("incoming" ∷ []) incoming))))
    × All (IsServed server) (files_below ("incoming" ∷ []) incoming)
walk_files_lem_example =
    walk_files_lem server ("incoming" ∷ []) incoming 3 refl
      (refl, tt, (refl, (refl, tt, (refl, tt, tt)), tt)) (omega arith)

walked :
    walk_files 3 server ("incoming" ∷ [])
    ≡ some (
        ok (
          ("incoming" ∷ "notes.txt" ∷ [])
          ∷ ("incoming" ∷ "3" ∷ "9.tif" ∷ [])
          ∷ ("incoming" ∷ "3" ∷ "4.tif" ∷ [])
          ∷ []))
unfolding walk_files document_classifier.Sftp.Client.listdir
    document_classifier.Sftp.Client.walk_entries
walked = refl

abbrev batch : Listing
batch = entry "9.tif" (file (7 ∷ [])) (entry "4.tif" (file (6 ∷ [])) nil)

move_file_lem_example :
    ((old : Node) × (child "9.tif" nil ≡ some old)
      × (move_file server ("incoming" ∷ "3" ∷ "9.tif" ∷ []) ("processed" ∷ [])
          ≡ (err os_error, server)))
    ⊎ ((root' : Node) × (child "9.tif" nil ≡ none)
        × (move_file server ("incoming" ∷ "3" ∷ "9.tif" ∷ []) ("processed" ∷ []) ≡ (ok tt, root'))
        × (lookup ("incoming" ∷ "3" ∷ "9.tif" ∷ []) root' ≡ none)
        × (lookup ("processed" ∷ "9.tif" ∷ []) root' ≡ some (file (7 ∷ []))))
move_file_lem_example =
    move_file_lem server "incoming" ("3" ∷ []) "9.tif" "processed" refl batch refl (file (7 ∷ []))
      refl nil refl

-- A file of a name that was processed before.
abbrev sent_again : Node
sent_again = directory (
    entry "processed" (directory (entry "9.tif" (file (7 ∷ [])) nil))
      (entry "incoming" (directory batch) nil))

stays :
    move_file sent_again ("incoming" ∷ "9.tif" ∷ []) ("processed" ∷ []) ≡ (err os_error, sent_again)
unfolding move_file ensure_dir rename
stays = refl

moves : move_file server ("incoming" ∷ "notes.txt" ∷ []) ("quarantine" ∷ []) ≡ (
  ok tt,
  directory (
      entry "processed" (directory nil) (
        entry "incoming"
          (directory (entry "3" (directory batch) nil))
          (entry "quarantine" (directory (entry "notes.txt" (file (8 ∷ [])) nil)) nil))),
)
unfolding move_file ensure_dir rename make_dir
moves = refl
