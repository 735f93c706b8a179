-- ===== src/Worker/Ready.antt =====
-- What the start of the worker, backend/worker/__main__.py, gives to its jobs.
use document_classifier.Prelude.{
  ℕ, zero, suc, ◌≤◌, ◌≡◌, ◌⊎◌, Bool-cases, inl, inr, refl, sym, subst, Bool, Option, none, some,
  String, str_len, arith,
}
use document_classifier.Exec.{
  Outcome, working, exited, crashed, Error, other_error, Result, ok, err, Result-cases,
}
use document_classifier.Contracts.{ClassifyJob}
use document_classifier.Services.World.{CacheBackend, Codecs}
use document_classifier.Services.Audit.{Stamp}
use document_classifier.Blob.{Bytes}
use document_classifier.Vault.{Secret}
use document_classifier.Classifier.StartupChecks.{
  Entry, Reading, json, object, ModelCard, run_all_startup_checks,
}
use document_classifier.Classifier.StartupChecks.Passing.{
  MayStart, Reading-cases, run_all_startup_checks_lem,
}
use document_classifier.Classifier.Predictor.{
  Torch, Predictor, create_predictor, get_predictor, predict_topk,
}
use document_classifier.Worker.Job.{Station, classify_job}
use document_classifier.Worker.Payload.{model_dump, job_of_payload-model_dump}
use document_classifier.Worker.Entry.{Dependencies, inject_dependencies, injected, handle}
use document_classifier.Worker.Boot.{
  is_os_error, str_take, VersionCard, full_version, version_of, make_adapters, connect,
  name_version, start,
}

str_len-str_take : (n : ℕ) (s : String) → str_len (str_take n s) ≤ n
unfolding str_take
str_len-str_take zero s = omega arith
str_len-str_take (suc n) String.[] = omega arith
str_len-str_take (suc n) (String.◌∷◌ c s) = omega (arith, str_len-str_take n s)

version_of_bound : (card : VersionCard) (v : String) → version_of card ≡ ok v → str_len v ≤ 50
unfolding version_of
version_of_bound card v h = elim (Result-cases (full_version card)) [
  | inl (text, e) ↦
      let same : str_take 50 text ≡ v = ground arith in
      subst (λ t. str_len t ≤ 50) same (str_len-str_take 50 text)
  | inr (error, e) ↦ absurd (ground arith)
]

module _ {Score File Adapter Recorder : Type 0} (T : Torch) (files : String → Entry File)
    (parse : File → Reading (ModelCard Score)) (hexdigest : File → String)
    (below : Score → Score → Bool) (min_top1 : Score) (read_card : String → Reading VersionCard)
    (vault : String → Result (Option Secret)) (of_client : Error → Bool)
    (worker_blob : String × String → Result Adapter) (worker_service : String → Result Recorder)
    (fake_blob : Adapter) (fake_service : Recorder) (open_queue : Result (Unit {0}))
    (weights_path model_card_path : String) (use_fakes : Bool)
    (deps : Dependencies (Predictor T) Adapter Recorder) where
  abbrev pub begin : Outcome × Dependencies (Predictor T) Adapter Recorder
  begin =
      start T files parse hexdigest below min_top1 read_card vault of_client worker_blob
        worker_service fake_blob fake_service open_queue weights_path model_card_path use_fakes none
        deps

  -- A loaded predictor and a version that fits its column, which the jobs find.
  abbrev pub IsReady : Dependencies (Predictor T) Adapter Recorder → Type 0
  IsReady deps' =
      (network : T.Network) × (version : String) × (blob : Adapter) × (service : Recorder) × (T.load
          weights_path
        ≡ ok network)
      × (str_len version ≤ 50)
      × (injected deps'
          ≡ some (
            record { weights_path = weights_path; model = some network },
            blob,
            service,
            version,
          ))

  -- A worker that works has passed the checks and is ready. A start that exits has injected nothing; one
  -- that crashes has injected nothing, or was ready when its queue could not be opened.
  abbrev pub Ends : Outcome × Dependencies (Predictor T) Adapter Recorder → Type 0
  Ends (working, deps') =
      MayStart files parse hexdigest below weights_path model_card_path min_top1 × IsReady deps'
  Ends (exited n, deps') = deps' ≡ deps
  Ends (crashed e, deps') = (deps' ≡ deps) ⊎ ((open_queue ≡ err e) × IsReady deps')

  abbrev pub predictor_of : T.Network → Predictor T
  predictor_of network = record { weights_path = weights_path; model = some network }

  abbrev connecting : T.Network → String → Outcome × Dependencies (Predictor T) Adapter Recorder
  connecting network version =
      connect T files parse hexdigest below min_top1 read_card vault of_client worker_blob
        worker_service fake_blob fake_service open_queue weights_path model_card_path use_fakes
        (predictor_of network) version deps

  abbrev naming : T.Network → Outcome × Dependencies (Predictor T) Adapter Recorder
  naming network =
      name_version T files parse hexdigest below min_top1 read_card vault of_client worker_blob
        worker_service fake_blob fake_service open_queue weights_path model_card_path use_fakes
        (predictor_of network) deps

  abbrev MayRun : Type 0
  MayRun = MayStart files parse hexdigest below weights_path model_card_path min_top1

  -- Behind the adapters, everything is injected.
  opened :
      (network : T.Network) (version : String) (blob : Adapter) (service : Recorder)
      → MayRun
      → T.load weights_path ≡ ok network
      → str_len version ≤ 50
      → make_adapters T files parse hexdigest below min_top1 read_card vault of_client worker_blob
          worker_service fake_blob fake_service open_queue weights_path model_card_path use_fakes
        ≡ ok (blob, service)
      → Ends (connecting network version)
  unfolding injected inject_dependencies
  opened network version blob service may loaded short e =
      let deps' = inject_dependencies (predictor_of network) blob service version deps in
      let ready : IsReady deps' = (network, version, blob, service, loaded, short, refl) in
      elim (Result-cases open_queue) [
        | inl (ready_queue, k) ↦
            let done : connecting network version ≡ (working, deps') =
              unfold connect in ground arith in
            subst Ends (sym done) (may, ready)
        | inr (error, k) ↦
            let done : connecting network version ≡ (crashed error, deps') =
              unfold connect in ground arith in
            subst Ends (sym done) (inr (k, ready))
      ]

  connected :
      (network : T.Network) (version : String)
      → MayRun
      → T.load weights_path ≡ ok network
      → str_len version ≤ 50
      → Ends (connecting network version)
  connected network version may loaded short =
      elim (Result-cases (
        make_adapters T files parse hexdigest below min_top1 read_card vault of_client worker_blob
          worker_service fake_blob fake_service open_queue weights_path model_card_path
          use_fakes)) [
            | inl ((blob, service), e) ↦ opened network version blob service may loaded short e
            | inr (error, e) ↦
                let done : connecting network version ≡ (crashed error, deps) =
                  unfold connect in ground arith in
                subst Ends (sym done) (inl refl)
          ]

  versioned :
      (network : T.Network) (card : VersionCard)
      → MayRun
      → T.load weights_path ≡ ok network
      → read_card model_card_path ≡ json (object card)
      → Ends (naming network)
  versioned network card may loaded e = elim (Result-cases (version_of card)) [
    | inr (error, k) ↦
        let done : naming network ≡ (crashed error, deps) = unfold name_version in ground arith in
        subst Ends (sym done) (inl refl)
    | inl (version, k) ↦
        let done : naming network ≡ connecting network version =
          unfold name_version in ground arith in
        subst Ends (sym done)
          (connected network version may loaded (version_of_bound card version k))
  ]

  named : (network : T.Network) → MayRun → T.load weights_path ≡ ok network → Ends (naming network)
  named network may loaded = elim (Reading-cases (read_card model_card_path)) [
    | inl bad ↦
        let done : naming network ≡ (exited 1, deps) = unfold name_version in ground arith in
        subst Ends (sym done) refl
    | inr (inl (error, k)) ↦ elim (Bool-cases (is_os_error error)) [
      | inl caught ↦
          let done : naming network ≡ (exited 1, deps) = unfold name_version in ground arith in
          subst Ends (sym done) refl
      | inr other ↦
          let done : naming network ≡ (crashed error, deps) = unfold name_version in ground arith in
          subst Ends (sym done) (inl refl)
    ]
    | inr (inr (inl k)) ↦
        let done : naming network ≡ (crashed other_error, deps) =
          unfold name_version in ground arith in
        subst Ends (sym done) (inl refl)
    | inr (inr (inr (card, k))) ↦ versioned network card may loaded k
  ]

  -- A start of the worker in a fresh process ends in one of three ways. Either the worker works: then the
  -- startup checks have what they ask for, the weights are loaded, the name of the model fits the 50
  -- characters of its column, and the jobs find predictor, adapters and name. Or the script has exited:
  -- then nothing is injected. Or it has crashed: then nothing is injected, or everything was, and the
  -- queue could not be opened.
  pub start-Ends : Ends begin
  start-Ends =
      elim (Result-cases (
        run_all_startup_checks files parse hexdigest below weights_path model_card_path min_top1
          (some weights_path) (some model_card_path) none)) [
            | inr (error, e) ↦
                let done : begin ≡ (exited 1, deps) = unfold start in ground arith in
                subst Ends (sym done) refl
            | inl (passed, e) ↦
                let may : MayRun =
                  (run_all_startup_checks_lem files parse hexdigest below weights_path
                      model_card_path min_top1 (some weights_path) (some model_card_path) none).0.0
                    e in
                elim (Result-cases (T.load weights_path)) [
                  | inr (error, k) ↦
                      let done : begin ≡ (crashed error, deps) =
                        unfold start get_predictor create_predictor in ground arith in
                      subst Ends (sym done) (inl refl)
                  | inl (network, k) ↦
                      let done : begin ≡ naming network =
                        unfold start get_predictor create_predictor in ground arith in
                      subst Ends (sym done) (named network may k)
                ]
          ]

  module _ (C : CacheBackend) (J : Codecs) (render_overlay : Bytes → String → ℕ → Result Bytes)
      (uuids : ℕ → String) (stamp : Stamp) where
    handled :
        (deps' : Dependencies (Predictor T) Adapter Recorder)
        → IsReady deps'
        → (job : ClassifyJob) (s : Station C.Store)
        → (network : T.Network) × (version : String) × (T.load weights_path ≡ ok network)
          × (str_len version ≤ 50)
          × (handle T C J render_overlay uuids stamp deps' (model_dump job) s
              ≡ classify_job C J
                  (predict_topk T (predictor_of network))
                  render_overlay
                  version
                  uuids
                  stamp
                  job
                  s)
    unfolding handle
    handled deps' (network, version, blob, service, loaded, short, e) job s =
        let read = job_of_payload-model_dump job in (network, version, loaded, short, ground arith)

    -- A worker that works, and has begun in a fresh process, handles the payload that the queue writes for a
    -- job as that job, with the network of the weights and with a name of the model of at most 50
    -- characters.
    pub handle-start :
        (deps' : Dependencies (Predictor T) Adapter Recorder)
        → begin ≡ (working, deps')
        → (job : ClassifyJob) (s : Station C.Store)
        → (network : T.Network) × (version : String) × (T.load weights_path ≡ ok network)
          × (str_len version ≤ 50)
          × (handle T C J render_overlay uuids stamp deps' (model_dump job) s
              ≡ classify_job C J
                  (predict_topk T (predictor_of network))
                  render_overlay
                  version
                  uuids
                  stamp
                  job
                  s)
    handle-start deps' e job s = handled deps' (subst Ends e start-Ends).1 job s
