-- ===== src/Api/Scan.antt =====
-- backend/app/api/routers/scan.py: files of the golden set go to the SFTP server. The files that are
-- there, the upload and the keys of `uuid4` are arguments.
use Prim.Native.String.{◌++◌}
use document_classifier.Prelude.{
  ℕ, ◌+◌, ◌≡◌, ◌⊎◌, inl, inr, refl, Bool, true, false, List, [], ◌∷◌, reverse, length, ◌≤◌, String,
  str_eq, arith, Bool-cases, if◌then◌else◌,
}
use document_classifier.Exec.{Error, ok, err, Exec, http, Result-cases}
use document_classifier.Ingest.{split_slash, components}

pub record ScanTriggerResult : Type 0 where
  pub queued : List String
  pub failed : List String

-- `Path(filename).name`: the last component, or nothing.
unfoldable pub safe_name : String → String
safe_name filename = elim (reverse (components (split_slash filename))) [
  | [] ↦ ""
  | name ∷ rest ↦ name
]

unfoldable pub add_queued : String → ScanTriggerResult → ScanTriggerResult
add_queued filename r = record r { queued = filename ∷ r.queued }

unfoldable pub add_failed : String → ScanTriggerResult → ScanTriggerResult
add_failed filename r = record r { failed = filename ∷ r.failed }

module _ {S : Type 0} (is_golden : String → Bool)
    (upload_file : String → String → String → Exec S (Unit {0})) (uuids : ℕ → String) where
  -- The upload of one file, under two new keys.
  unfoldable pub upload_as : ℕ → String → Exec S (Unit {0})
  unfolding safe_name
  upload_as drawn filename =
      let remote_dir = "incoming/" ++ uuids drawn in
      upload_file (safe_name filename) remote_dir
        (remote_dir ++ ("/" ++ (uuids (drawn + 1) ++ ".tif")))

  -- The loop of `trigger_scan`, `drawn` keys into it.
  unfoldable pub scan_files : ℕ → List String → S → ScanTriggerResult × S
  unfolding safe_name upload_as
  scan_files drawn [] s = (record { queued = []; failed = [] }, s)
  scan_files drawn (filename ∷ files) s = elim (is_golden (safe_name filename)) [
    | false ↦ let (r, s') = scan_files drawn files s in (add_failed filename r, s')
    | true ↦
        let (done, s') = upload_as drawn filename s in
        let (r, s'') = scan_files (drawn + 2) files s' in
        elim done [ ok _ ↦ (add_queued filename r, s'') | err _ ↦ (add_failed filename r, s'') ]
  ]

  -- `not queued and failed`
  unfoldable pub all_failed : ScanTriggerResult → Bool
  all_failed r = elim r.queued [
    | q ∷ qs ↦ false
    | [] ↦ elim r.failed [ [] ↦ false | f ∷ fs ↦ true ]
  ]

  unfoldable pub trigger_scan : List String → Exec S ScanTriggerResult
  unfolding scan_files all_failed
  trigger_scan files s =
      let (r, s') = scan_files 0 files s in
      if all_failed r then (err (http 502), s') else (ok r, s')

  -- How often a file is named.
  abbrev pub times : String → List String → ℕ
  times name [] = 0
  times name (x ∷ xs) = (if str_eq x name then 1 else 0) + times name xs

  -- `count` counts the uploads that returned.
  module _ (count : S → ℕ)
      (returned : (path dir target : String) (s : S)
        → (upload_file path dir target s).0 ≡ ok tt
        → count (upload_file path dir target s).1 ≡ count s + 1)
      (raised : (path dir target : String) (s : S) (e : Error)
        → (upload_file path dir target s).0 ≡ err e
        → count (upload_file path dir target s).1 ≡ count s) where
    -- Each file is reported as often as it was named, and the queued ones are those whose upload
    -- returned between `s` and `s'`.
    abbrev pub IsReport : List String → S → ScanTriggerResult → S → Type 0
    IsReport files s r s' =
        ((name : String) → times name r.queued + times name r.failed ≡ times name files)
        × (length r.queued + length r.failed ≡ length files)
        × (count s' ≡ count s + length r.queued)

    scanned :
        (drawn : ℕ) (files : List String) (s : S)
        → IsReport files s (scan_files drawn files s).0 (scan_files drawn files s).1
    unfolding scan_files add_queued add_failed
    scanned drawn [] s = ((λ name. refl), refl, omega arith)
    scanned drawn (filename ∷ files) s = elim (Bool-cases (is_golden (safe_name filename))) [
      | inr missing ↦
          let (named, total, counted) = scanned drawn files s in
          ((λ name. let k = named name in ground arith), ground arith, ground arith)
      | inl there ↦
          let s' = (upload_as drawn filename s).1 in
          let (named, total, counted) = scanned (drawn + 2) files s' in
          elim (Result-cases (upload_as drawn filename s).0) [
            | inl (done, p) ↦
                let one : count s' ≡ count s + 1 = returned _ _ _ s p in
                ((λ name. let k = named name in ground arith), ground arith, ground arith)
            | inr (e, p) ↦
                let same : count s' ≡ count s = raised _ _ _ s e p in
                ((λ name. let k = named name in ground arith), ground arith, ground arith)
          ]
    ]

    all_failed_report :
        (r : ScanTriggerResult)
        → all_failed r ≡ true
        → (length r.queued ≡ 0) × (1 ≤ length r.failed)
    unfolding all_failed
    all_failed_report r h = (ground arith, ground arith)

    not_failed_report :
        (r : ScanTriggerResult)
        → all_failed r ≡ false
        → (length r.queued + length r.failed ≡ 0) ⊎ (1 ≤ length r.queued)
    unfolding all_failed
    not_failed_report r h = ground arith

    -- Let the uploads that return be counted. A scan reports each of its files as queued or as failed,
    -- as often as it was named, and as many are queued as uploads have returned: at least one, or no file
    -- was named. Otherwise it raises a 502: then a file was named, and no upload has returned.
    pub trigger_scan_lem :
        (files : List String) (s : S)
        → ((r : ScanTriggerResult) × ((trigger_scan files s).0 ≡ ok r)
            × IsReport files s r (trigger_scan files s).1
            × ((length files ≡ 0) ⊎ (1 ≤ length r.queued)))
          ⊎ (((trigger_scan files s).0 ≡ err (http 502))
              × (1 ≤ length files)
              × (count (trigger_scan files s).1 ≡ count s))
    unfolding trigger_scan
    trigger_scan_lem files s =
        let r = (scan_files 0 files s).0 in
        let (named, total, counted) = scanned 0 files s in
        elim (Bool-cases (all_failed r)) [
          | inl failed ↦
              let (none_queued, some_failed) = all_failed_report r failed in
              inr (ground arith, omega arith, ground arith)
          | inr passed ↦
              let some_queued = not_failed_report r passed in
              inl (
                r,
                ground arith,
                (named, total, ground arith),
                elim some_queued [ inl empty ↦ inl (omega arith) | inr one ↦ inr one ],
              )
        ]
