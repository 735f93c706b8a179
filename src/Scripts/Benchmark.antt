-- ===== src/Scripts/Benchmark.antt =====
-- backend/scripts/benchmark_latency.py: how the latencies of the worker are collected from the pages of the
-- API. The answers of the server are an argument: none stands for an answer that is no list.
use document_classifier.Prelude.{
  ℕ, zero, suc, ◌+◌, ◌*◌, ◌≤◌, ◌<◌, ◌≡◌, ◌⊎◌, inl, inr, refl, sym, ap, subst, ◌∙◌, true, false,
  Bool-cases, Option, none, some, List, [], ◌∷◌, ◌++◌, ltb, arith, length, take, drop,
}
use mathlib.Core.List.{append-nil}
use document_classifier.Exec.{Result, ok, err}
use document_classifier.Lists.{
  take_all, take-append_page, length-drop, length_of_short, length_of_full,
}

-- The latencies of the items that have one.
unfoldable pub latencies : List (Option ℕ) → List ℕ
latencies [] = []
latencies (none ∷ items) = latencies items
latencies (some ms ∷ items) = ms ∷ latencies items

module _ (get : ℕ → Result (Option (List (Option ℕ)))) (max_records : ℕ) where
  -- The loop, on fuel: none where the fuel runs out.
  unfoldable pub fetch_inference_latencies : ℕ → ℕ → List ℕ → Option (Result (List ℕ))
  fetch_inference_latencies zero page out = none
  fetch_inference_latencies (suc fuel) page out = elim (ltb (length out) max_records) [
    | false ↦ some (ok out)
    | true ↦ elim (get page) [
      | err e ↦ some (err e)
      | ok none ↦ some (ok out)
      | ok (some []) ↦ some (ok out)
      | ok (some (item ∷ items)) ↦ elim (ltb (length (item ∷ items)) 100) [
        | true ↦ some (ok (out ++ latencies (item ∷ items)))
        | false ↦ fetch_inference_latencies fuel (page + 1) (out ++ latencies (item ∷ items))
      ]
    ]
  ]

latencies-append : (xs ys : List (Option ℕ)) → latencies (xs ++ ys) ≡ latencies xs ++ latencies ys
unfolding latencies
latencies-append [] ys = refl
latencies-append (none ∷ xs) ys = latencies-append xs ys
latencies-append (some ms ∷ xs) ys = ap (λ ns. ms ∷ ns) (latencies-append xs ys)

module _ (get : ℕ → Result (Option (List (Option ℕ)))) (max_records : ℕ) where
  stopped :
      (fuel n : ℕ) (out : List ℕ)
      → ltb (length out) max_records ≡ false
      → fetch_inference_latencies get max_records (suc fuel) n out ≡ some (ok out)
  unfolding fetch_inference_latencies
  stopped fuel n out enough = ground arith

  -- A round that reads a page: it is the last one, or there is another.
  one_page :
      (fuel n : ℕ) (out : List ℕ) (page : List (Option ℕ))
      → get n ≡ ok (some page)
      → ltb (length out) max_records ≡ true
      → ((length page < 100)
          × (fetch_inference_latencies get max_records (suc fuel) n out
              ≡ some (ok (out ++ latencies page))))
        ⊎ ((100 ≤ length page)
            × (fetch_inference_latencies get max_records (suc fuel) n out
                ≡ fetch_inference_latencies get max_records fuel (n + 1) (out ++ latencies page)))
  unfolding fetch_inference_latencies
  one_page fuel n out [] e more =
      inl (omega arith, unfold latencies in ground (arith, append-nil out))
  one_page fuel n out (item ∷ items) e more = elim (Bool-cases (ltb (length (item ∷ items)) 100)) [
    | inl short ↦ inl (ground arith, ground arith)
    | inr full ↦ inr (ground arith, ground arith)
  ]

module _ (get : ℕ → Result (Option (List (Option ℕ)))) (max_records : ℕ) (rows : List (Option ℕ))
    (serves : (i : ℕ) → get (i + 1) ≡ ok (some (take 100 (drop (i * 100) rows)))) where
  -- What has been read before the page `i + 1`, and that page.
  abbrev read : ℕ → List ℕ
  read i = latencies (take (i * 100) rows)

  abbrev page_of : ℕ → List (Option ℕ)
  page_of i = take 100 (drop (i * 100) rows)

  -- The loop has read whole pages, and either enough records or all of them.
  abbrev pub Fetched : Option (Result (List ℕ)) → Type 0
  Fetched r =
      (out : List ℕ) × (pages : ℕ) × (r ≡ some (ok out))
      × (out ≡ latencies (take (pages * 100) rows))
      × ((max_records ≤ length out) ⊎ (out ≡ latencies rows))

  read_next : (i : ℕ) → read i ++ latencies (page_of i) ≡ read (i + 1)
  read_next i =
      let total : (i + 1) * 100 ≡ i * 100 + 100 = omega arith in
      sym (latencies-append (take (i * 100) rows) (page_of i))
      ∙ rw total (ap latencies (take-append_page (i * 100) 100 rows))

  read_all : (i : ℕ) → length (page_of i) < 100 → read (i + 1) ≡ latencies rows
  read_all i h =
      let short = length_of_short 100 (drop (i * 100) rows) h in
      ap latencies (take_all ((i + 1) * 100) rows (omega (arith, length-drop (i * 100) rows)))

  go_on : (i : ℕ) → 100 ≤ length (page_of i) → (i + 1) * 100 ≤ length rows
  go_on i h =
      let full = length_of_full 100 (drop (i * 100) rows) h in
      omega (arith, length-drop (i * 100) rows)

  collected :
      (fuel i : ℕ)
      → i * 100 ≤ length rows
      → length rows < (i + fuel) * 100
      → Fetched (fetch_inference_latencies get max_records fuel (i + 1) (read i))
  collected zero i low high = absurd (omega arith)
  collected (suc fuel) i low high = elim (Bool-cases (ltb (length (read i)) max_records)) [
    | inr enough ↦
        (read i, i, stopped get max_records fuel (i + 1) (read i) enough, refl, inl (ground arith))
    | inl more ↦ elim (one_page get max_records fuel (i + 1) (read i) (page_of i) (serves i) more) [
      | inl (short, e) ↦ (
        read (i + 1),
        i + 1,
        e ∙ ap (λ ns. some (ok ns)) (read_next i),
        refl,
        inr (read_all i short),
      )
      | inr (full, e) ↦
          let next =
            e ∙ ap (fetch_inference_latencies get max_records fuel (i + 1 + 1)) (read_next i) in
          let rest = collected fuel (i + 1) (go_on i full) (omega arith) in
          subst Fetched (sym next) rest
    ]
  ]

  -- Where the server gives the pages of its rows, a hundred each, the loop ends: a round for each full page and
  -- one more are enough. It has then read whole pages, and has as many latencies as were asked for, or
  -- those of all rows.
  pub fetch_inference_latencies_ends :
      (fuel : ℕ)
      → length rows < fuel * 100
      → Fetched (fetch_inference_latencies get max_records fuel 1 [])
  unfolding latencies
  fetch_inference_latencies_ends fuel h = collected fuel 0 (omega arith) (omega arith)
