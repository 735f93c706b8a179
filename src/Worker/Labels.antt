-- ===== src/Worker/Labels.antt =====
-- `LABEL_TO_ENUM` of backend/worker/handler.py and `CLASSES` of backend/app/classifier/predictor.py.
use document_classifier.Prelude.{List, [], ◌∷◌, String, str_eq, if◌then◌else◌}
use document_classifier.Exec.{Result, ok, err, key_error}
use document_classifier.Contracts.{
  PredictionLabel, letter, form, email, handwritten, advertisement, scientific_report,
  scientific_publication, specification, file_folder, news_article, budget, invoice, presentation,
  questionnaire, resume, memo,
}

-- `LABEL_TO_ENUM[label]`
unfoldable pub label_to_enum : String → Result PredictionLabel
label_to_enum s =
    if str_eq s "letter"
    then ok letter
    else if str_eq s "form"
    then ok form
    else if str_eq s "email"
    then ok email
    else if str_eq s "handwritten"
    then ok handwritten
    else if str_eq s "advertisement"
    then ok advertisement
    else if str_eq s "scientific report"
    then ok scientific_report
    else if str_eq s "scientific publication"
    then ok scientific_publication
    else if str_eq s "specification"
    then ok specification
    else if str_eq s "file folder"
    then ok file_folder
    else if str_eq s "news article"
    then ok news_article
    else if str_eq s "budget"
    then ok budget
    else if str_eq s "invoice"
    then ok invoice
    else if str_eq s "presentation"
    then ok presentation
    else if str_eq s "questionnaire"
    then ok questionnaire
    else if str_eq s "resume"
    then ok resume
    else if str_eq s "memo"
    then ok memo
    else err key_error

-- The classes that the predictor names.
unfoldable pub classes : List String
classes =
    "letter" ∷ "form" ∷ "email" ∷ "handwritten" ∷ "advertisement" ∷ "scientific report"
    ∷ "scientific publication" ∷ "specification" ∷ "file folder" ∷ "news article" ∷ "budget"
    ∷ "invoice" ∷ "presentation" ∷ "questionnaire" ∷ "resume" ∷ "memo" ∷ []
