-- ===== src/Tests/Scripts.antt =====
-- A run of the benchmark's collection.
use document_classifier.Prelude.{
  ℕ, ◌*◌, ◌-◌, ◌+◌, ◌≡◌, refl, ap, Option, none, some, List, [], ◌∷◌, take, drop, arith,
}
use document_classifier.Exec.{Result, ok}
use document_classifier.Scripts.Benchmark.{
  latencies, fetch_inference_latencies, Fetched, fetch_inference_latencies_ends,
}

abbrev rows : List (Option ℕ)
rows = some 40 ∷ none ∷ some 50 ∷ []

abbrev pages : ℕ → Result (Option (List (Option ℕ)))
pages page = ok (some (take 100 (drop ((page - 1) * 100) rows)))

pages_serve : (i : ℕ) → pages (i + 1) ≡ ok (some (take 100 (drop (i * 100) rows)))
pages_serve i =
    let e : i + 1 - 1 ≡ i = omega arith in ap (λ n. ok (some (take 100 (drop (n * 100) rows)))) e

fetch_inference_latencies_ends_example :
    Fetched pages 500 rows pages_serve (fetch_inference_latencies pages 500 1 1 [])
fetch_inference_latencies_ends_example =
    fetch_inference_latencies_ends pages 500 rows pages_serve 1 (omega arith)

all_collected : fetch_inference_latencies pages 500 1 1 [] ≡ some (ok (40 ∷ 50 ∷ []))
unfolding fetch_inference_latencies latencies
all_collected = refl
