-- ===== src/Contracts.antt =====
-- backend/app/domain/contracts.py: the enumerations, with the texts that they are stored as, and
-- the models that pass between the parts. A confidence is rounded to ten decimals by the predictor,
-- so it is its number of units of 10^-10; a time and a latency are only carried and ordered.
use document_classifier.Prelude.{
  ℕ, ◌≡◌, refl, Bool, true, false, Option, List, String, str_eq, if◌then◌else◌,
}
use document_classifier.Exec.{Result, ok, err, value_error}

pub data Role : Type 0 where
  admin reviewer auditor : Role

pub data BatchStatus : Type 0 where
  pending processing complete failed : BatchStatus

pub data PredictionLabel : Type 0 where
  letter form email handwritten advertisement : PredictionLabel
  scientific_report scientific_publication specification file_folder : PredictionLabel
  news_article budget invoice presentation questionnaire resume memo : PredictionLabel

-- `role.value`, which `str(role)` is too.
unfoldable pub role_value : Role → String
role_value admin = "admin"
role_value reviewer = "reviewer"
role_value auditor = "auditor"

-- `Role(text)`
unfoldable pub role_of_value : String → Result Role
role_of_value s =
    if str_eq s "admin"
    then ok admin
    else if str_eq s "reviewer"
    then ok reviewer
    else if str_eq s "auditor"
    then ok auditor
    else err value_error

unfoldable pub status_value : BatchStatus → String
status_value pending = "pending"
status_value processing = "processing"
status_value complete = "complete"
status_value failed = "failed"

unfoldable pub status_of_value : String → Result BatchStatus
status_of_value s =
    if str_eq s "pending"
    then ok pending
    else if str_eq s "processing"
    then ok processing
    else if str_eq s "complete"
    then ok complete
    else if str_eq s "failed"
    then ok failed
    else err value_error

unfoldable pub label_value : PredictionLabel → String
label_value letter = "letter"
label_value form = "form"
label_value email = "email"
label_value handwritten = "handwritten"
label_value advertisement = "advertisement"
label_value scientific_report = "scientific_report"
label_value scientific_publication = "scientific_publication"
label_value specification = "specification"
label_value file_folder = "file_folder"
label_value news_article = "news_article"
label_value budget = "budget"
label_value invoice = "invoice"
label_value presentation = "presentation"
label_value questionnaire = "questionnaire"
label_value resume = "resume"
label_value memo = "memo"

unfoldable pub label_of_value : String → Result PredictionLabel
label_of_value s =
    if str_eq s "letter"
    then ok letter
    else if str_eq s "form"
    then ok form
    else if str_eq s "email"
    then ok email
    else if str_eq s "handwritten"
    then ok handwritten
    else if str_eq s "advertisement"
    then ok advertisement
    else if str_eq s "scientific_report"
    then ok scientific_report
    else if str_eq s "scientific_publication"
    then ok scientific_publication
    else if str_eq s "specification"
    then ok specification
    else if str_eq s "file_folder"
    then ok file_folder
    else if str_eq s "news_article"
    then ok news_article
    else if str_eq s "budget"
    then ok budget
    else if str_eq s "invoice"
    then ok invoice
    else if str_eq s "presentation"
    then ok presentation
    else if str_eq s "questionnaire"
    then ok questionnaire
    else if str_eq s "resume"
    then ok resume
    else if str_eq s "memo"
    then ok memo
    else err value_error

abbrev pub is_admin : Role → Bool
is_admin admin = true
is_admin _ = false

pub record UserOut : Type 0 where
  pub id : String
  pub email : String
  pub role : Role
  pub is_active : Bool
  pub created_at : ℕ

pub record BatchOut : Type 0 where
  pub id : String
  pub status : BatchStatus
  pub document_count : ℕ
  pub created_at : ℕ

pub record DocumentOut : Type 0 where
  pub id : String
  pub batch_id : String
  pub blob_key : String
  pub created_at : ℕ

pub record PredictionOut : Type 0 where
  pub id : String
  pub batch_id : String
  pub document_id : String
  pub label : PredictionLabel
  pub top1_confidence : ℕ
  pub top5 : List (PredictionLabel × ℕ)
  pub overlay_url : Option String
  pub model_version : String
  pub created_at : Option ℕ
  pub latency_ms : Option ℕ
  pub comment : Option String
  pub comment_color : Option String
  pub document_name : Option String

-- A `dict[str, Any]`: every value that the code puts in is a text or None.
abbrev pub Metadata : Type 0
Metadata = List (String × Option String)

pub record AuditLogEntry : Type 0 where
  pub id : String
  pub actor_id : String
  pub actor_email : Option String
  pub action : String
  pub target : String
  pub metadata : Option Metadata
  pub timestamp : ℕ

pub record ClassifyJob : Type 0 where
  pub batch_id : String
  pub document_id : String
  pub blob_key : String
  pub request_id : String

pub role_of_value-role_value : (r : Role) → role_of_value (role_value r) ≡ ok r
unfolding role_of_value role_value
role_of_value-role_value admin = refl
role_of_value-role_value reviewer = refl
role_of_value-role_value auditor = refl

pub status_of_value-status_value : (s : BatchStatus) → status_of_value (status_value s) ≡ ok s
unfolding status_of_value status_value
status_of_value-status_value pending = refl
status_of_value-status_value _ = refl

pub label_of_value-label_value : (l : PredictionLabel) → label_of_value (label_value l) ≡ ok l
unfolding label_of_value label_value
label_of_value-label_value letter = refl
label_of_value-label_value _ = refl
