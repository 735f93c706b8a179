-- ===== src/Classifier/Predictor.antt =====
-- backend/app/classifier/predictor.py. Images, tensors and the network are PIL's and torch's: what they do
-- is an argument, and so is the time that an inference takes.
use document_classifier.Prelude.{
  ℕ, zero, suc, ◌+◌, Option, none, some, List, [], ◌∷◌, String, get_elem?,
}
use document_classifier.Exec.{Result, ok, err, Exec, index_error, runtime_error}
use document_classifier.Blob.{Bytes}
use document_classifier.Classifier.StartupChecks.{or_default}
use document_classifier.Worker.{classes}

-- What the predictor calls: `torch.load` into the network, `Image.open` with the conversion, the
-- transform, the network and the softmax, `torch.max`, `torch.topk`, and `round(…, 10)`.
pub record Torch : Type 1 where
  pub Network : Type 0
  pub Image : Type 0
  pub Share : Type 0
  pub load : String → Result Network
  pub open_image : Bytes → Result Image
  pub infer : Network → Image → List Share
  pub max : List Share → Share × ℕ
  pub topk : List Share → ℕ → Result (List (Share × ℕ))
  pub round : Share → ℕ
  pub elapsed_ms : ℕ

-- `PredictionOut` of this file.
pub record Predicted : Type 0 where
  pub label : String
  pub confidence : ℕ
  pub latency_ms : Option ℕ

-- `CLASSES[idx]`
unfoldable pub class_at : ℕ → Result String
class_at idx = elim (get_elem? classes idx) [ some label ↦ ok label | none ↦ err index_error ]

module _ (T : Torch) where
  pub record Predictor : Type 0 where
    pub weights_path : String
    pub model : Option T.Network

  -- `Predictor(weights_path)`
  unfoldable pub create_predictor : String → Result Predictor
  create_predictor weights_path = elim (T.load weights_path) [
    | ok network ↦ ok (record { weights_path = weights_path; model = some network })
    | err e ↦ err e
  ]

  unfoldable pub predict : Predictor → Bytes → Result Predicted
  predict self image_bytes = elim self.model [
    | none ↦ err runtime_error
    | some network ↦ elim (T.open_image image_bytes) [
      | err e ↦ err e
      | ok img ↦
          let (conf, idx) = T.max (T.infer network img) in
          elim (class_at idx) [
            | err e ↦ err e
            | ok label ↦ ok (record {
              label = label;
              confidence = T.round conf;
              latency_ms = some T.elapsed_ms;
            })
          ]
    ]
  ]

  -- `for i in range(k)`, with `rounds` rounds left.
  unfoldable pub collect : List (T.Share × ℕ) → ℕ → ℕ → Result (List (String × ℕ))
  collect top zero i = ok []
  collect top (suc rounds) i = elim (get_elem? top i) [
    | none ↦ err index_error
    | some (conf, idx) ↦ elim (class_at idx) [
      | err e ↦ err e
      | ok label ↦ elim (collect top rounds (i + 1)) [
        | err e ↦ err e
        | ok results ↦ ok ((label, T.round conf) ∷ results)
      ]
    ]
  ]

  -- The log line reads `results[0]`.
  unfoldable pub predict_topk : Predictor → Bytes → ℕ → Result (List (String × ℕ) × ℕ)
  predict_topk self image_bytes k = elim self.model [
    | none ↦ err runtime_error
    | some network ↦ elim (T.open_image image_bytes) [
      | err e ↦ err e
      | ok img ↦ elim (T.topk (T.infer network img) k) [
        | err e ↦ err e
        | ok top ↦ elim (collect top k 0) [
          | err e ↦ err e
          | ok [] ↦ err index_error
          | ok (top1 ∷ rest) ↦ ok (top1 ∷ rest, T.elapsed_ms)
        ]
      ]
    ]
  ]

  -- The path that is used where no path is given is an argument.
  unfoldable pub get_predictor : String → Option String → Exec (Option Predictor) Predictor
  get_predictor default_path weights_path singleton = elim singleton [
    | some predictor ↦ (ok predictor, some predictor)
    | none ↦ elim (create_predictor (or_default weights_path default_path)) [
      | ok predictor ↦ (ok predictor, some predictor)
      | err e ↦ (err e, none)
    ]
  ]
