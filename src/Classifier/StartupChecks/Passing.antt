-- ===== src/Classifier/StartupChecks/Passing.antt =====
-- When the checks of backend/app/classifier/startup_checks.py pass, and by which errors they fail.
use document_classifier.Prelude.{
  ◌≡◌, ◌⊎◌, ◌↔◌, inl, inr, refl, sym, Bool, true, false, Option, some, String, str_eq, arith,
  Bool-cases, eq_iff, ap,
}
use document_classifier.Exec.{Error, Result, ok, err, other_error, startup_error}
use document_classifier.Classifier.StartupChecks.{
  Entry, absent, unreadable, readable, no_object, object, Reading, not_json, stopped, json, Field,
  null, word, number, nested, truth, equals, ModelCard, or_default, assert_weights_present,
  run_all_startup_checks,
}

Entry-cases :
    {File : Type 0} (x : Entry File)
    → (x ≡ absent) ⊎ ((e : Error) × (x ≡ unreadable e)) ⊎ ((f : File) × (x ≡ readable f))
Entry-cases absent = inl refl
Entry-cases (unreadable e) = inr (inl (e, refl))
Entry-cases (readable f) = inr (inr (f, refl))

Field-cases :
    {Score : Type 0} (x : Field Score)
    → (x ≡ null)
      ⊎ ((s : String) × (x ≡ word s))
      ⊎ ((t : Bool) × (x ≡ nested t))
      ⊎ ((t : Bool) × (n : Score) × (x ≡ number t n))
Field-cases null = inl refl
Field-cases (word s) = inr (inl (s, refl))
Field-cases (nested t) = inr (inr (inl (t, refl)))
Field-cases (number t n) = inr (inr (inr (t, n, refl)))

pub Reading-cases :
    {Card : Type 0} (x : Reading Card)
    → (x ≡ not_json)
      ⊎ ((e : Error) × (x ≡ stopped e))
      ⊎ (x ≡ json no_object)
      ⊎ ((card : Card) × (x ≡ json (object card)))
Reading-cases not_json = inl refl
Reading-cases (stopped e) = inr (inl (e, refl))
Reading-cases (json no_object) = inr (inr (inl refl))
Reading-cases (json (object card)) = inr (inr (inr (card, refl)))

-- A value that is neither missing nor a number.
abbrev pub is_no_score : {Score : Type 0} → Field Score → Bool
is_no_score null = false
is_no_score (number t n) = false
is_no_score _ = true

equals-word : {Score : Type 0} (s : String) (x : Field Score) → equals s x ≡ true → x ≡ word s
unfolding equals
equals-word s null h = cc
equals-word s (nested t) h = cc
equals-word s (number t n) h = cc
equals-word s (word t) h = ap word (sym ((eq_iff s t).0 h))

module _ {Score File : Type 0} (files : String → Entry File)
    (parse : File → Reading (ModelCard Score)) (hexdigest : File → String)
    (below : Score → Score → Bool) (weights_path card_path : String) (min_top1 : Score) where
  -- What a classifier that may start has.
  pub record MayStart : Type 0 where
    pub weights : File
    pub text : File
    pub card : ModelCard Score
    pub truthy : Bool
    pub top1 : Score
    pub weights_there : files weights_path ≡ readable weights
    pub card_there : files card_path ≡ readable text
    pub card_read : parse text ≡ json (object card)
    pub sha_given : str_eq (hexdigest weights) "" ≡ false
    pub sha_right : card.sha256 ≡ word (hexdigest weights)
    pub top1_there : card.test_top1 ≡ number truthy top1
    pub top1_enough : below top1 min_top1 ≡ false

  -- What raises another error than ClassifierStartupError, and which.
  pub data Broken : Error → Type 0 where
    card_unreadable : (e : Error) → files card_path ≡ unreadable e → Broken e
    card_stopped :
        (text : File) (e : Error)
        → files card_path ≡ readable text
        → parse text ≡ stopped e
        → Broken e
    card_no_object :
        (text : File)
        → files card_path ≡ readable text
        → parse text ≡ json no_object
        → Broken other_error
    weights_unreadable : (e : Error) → files weights_path ≡ unreadable e → Broken e
    score_no_number :
        (text : File) (card : ModelCard Score)
        → files card_path ≡ readable text
        → parse text ≡ json (object card)
        → is_no_score card.test_top1 ≡ true
        → Broken other_error

  abbrev Ended : Result (Unit {0}) → Type 0
  Ended r =
      (r ≡ err startup_error) ⊎ ((e : Error) × (r ≡ err e) × Broken e) ⊎ ((r ≡ ok tt) × MayStart)

  -- The checks at given paths.
  checks : Result (Unit {0})
  checks =
      run_all_startup_checks files parse hexdigest below "" "" min_top1 (some weights_path)
        (some card_path) (some min_top1)

  module _ (weights text : File) (card : ModelCard Score)
      (p : files weights_path ≡ readable weights) (q : files card_path ≡ readable text)
      (k : parse text ≡ json (object card)) where
    scored : truth card.sha256 ≡ true → equals (hexdigest weights) card.sha256 ≡ true → Ended checks
    unfolding checks run_all_startup_checks truth
    scored given right = elim (Field-cases card.test_top1) [
      | inl missing ↦ inl (ground arith)
      | inr (inl (s, m)) ↦
          inr (inl (other_error, ground arith, score_no_number text card q k (ground arith)))
      | inr (inr (inl (t, m))) ↦
          inr (inl (other_error, ground arith, score_no_number text card q k (ground arith)))
      | inr (inr (inr (t, top1, m))) ↦ elim (Bool-cases (below top1 min_top1)) [
        | inl low ↦ inl (ground arith)
        | inr enough ↦
            let same = equals-word (hexdigest weights) card.sha256 right in
            inr (
              inr (
                ground arith,
                record {
                  weights = weights;
                  text = text;
                  card = card;
                  truthy = t;
                  top1 = top1;
                  weights_there = p;
                  card_there = q;
                  card_read = k;
                  sha_given = ground arith;
                  sha_right = same;
                  top1_there = m;
                  top1_enough = enough;
                },
              ))
      ]
    ]

    carded : Ended checks
    unfolding checks run_all_startup_checks
    carded = elim (Bool-cases (truth card.sha256)) [
      | inr missing ↦ inl (ground arith)
      | inl given ↦ elim (Bool-cases (equals (hexdigest weights) card.sha256)) [
        | inr wrong ↦ inl (ground arith)
        | inl right ↦ scored given right
      ]
    ]

  unweighed :
      (e : Error)
      → files weights_path ≡ unreadable e
      → (text : File) (card : ModelCard Score) → files card_path ≡ readable text
      → parse text ≡ json (object card)
      → Ended checks
  unfolding checks run_all_startup_checks
  unweighed e p text card q k = elim (Bool-cases (truth card.sha256)) [
    | inr missing ↦ inl (ground arith)
    | inl given ↦ inr (inl (e, ground arith, weights_unreadable e p))
  ]

  -- The weights are there, whether they can be read or not.
  weighed :
      ((e : Error) × (files weights_path ≡ unreadable e))
        ⊎ ((weights : File) × (files weights_path ≡ readable weights))
      → assert_weights_present files parse hexdigest below weights_path ≡ ok tt
      → Ended checks
  unfolding checks run_all_startup_checks
  weighed there present = elim (Entry-cases (files card_path)) [
    | inl missing ↦ inl (ground arith)
    | inr (inl (e, q)) ↦ inr (inl (e, ground arith, card_unreadable e q))
    | inr (inr (text, q)) ↦ elim (Reading-cases (parse text)) [
      | inl bad ↦ inl (ground arith)
      | inr (inl (e, k)) ↦ inr (inl (e, ground arith, card_stopped text e q k))
      | inr (inr (inl k)) ↦ inr (inl (other_error, ground arith, card_no_object text q k))
      | inr (inr (inr (card, k))) ↦ elim there [
        | inl (e, p) ↦ unweighed e p text card q k
        | inr (weights, p) ↦ carded weights text card p q k
      ]
    ]
  ]

  ended : Ended checks
  unfolding checks run_all_startup_checks assert_weights_present
  ended = elim (Entry-cases (files weights_path)) [
    | inl missing ↦ inl (ground arith)
    | inr (inl (e, p)) ↦ weighed (inl (e, p)) (ground arith)
    | inr (inr (weights, p)) ↦ weighed (inr (weights, p)) (ground arith)
  ]

  own_digest : (s : String) → equals {Score = Score} s (word s) ≡ true
  unfolding equals
  own_digest s = (eq_iff s s).1 refl

  passing : MayStart → checks ≡ ok tt
  unfolding checks run_all_startup_checks truth
  passing m =
      let p = m.weights_there in
      let q = m.card_there in
      let k = m.card_read in
      let given = m.sha_given in
      let right = m.sha_right in
      let own = own_digest (hexdigest m.weights) in
      let t = m.top1_there in let enough = m.top1_enough in ground arith

module _ {Score File : Type 0} (files : String → Entry File)
    (parse : File → Reading (ModelCard Score)) (hexdigest : File → String)
    (below : Score → Score → Bool) (default_weights default_card : String) (default_top1 : Score)
    (weights_path card_path : Option String) (min_top1 : Option Score) where
  abbrev pub given_weights : String
  given_weights = or_default weights_path default_weights

  abbrev pub given_card : String
  given_card = or_default card_path default_card

  abbrev pub given_top1 : Score
  given_top1 = or_default min_top1 default_top1

  abbrev pub all_checks : Result (Unit {0})
  all_checks =
      run_all_startup_checks files parse hexdigest below default_weights default_card default_top1
        weights_path card_path min_top1

  -- The checks pass exactly where the weights and the model card can be read, the card is a JSON object,
  -- its hash is the hash of the weights and not empty, and its score is a number that is not below the
  -- bound. Otherwise they raise ClassifierStartupError, or the error of a file that cannot be read or
  -- decoded, or an AttributeError for a card that is no object, or a TypeError for a score that is no number.
  pub run_all_startup_checks_lem :
      ((all_checks ≡ ok tt)
        ↔ MayStart files parse hexdigest below given_weights given_card given_top1)
      × ((all_checks ≡ ok tt)
          ⊎ (all_checks ≡ err startup_error)
          ⊎ ((e : Error) × (all_checks ≡ err e)
              × Broken files parse hexdigest below given_weights given_card given_top1 e))
  unfolding run_all_startup_checks checks
  run_all_startup_checks_lem =
      let pass = passing files parse hexdigest below given_weights given_card given_top1 in
      elim (ended files parse hexdigest below given_weights given_card given_top1) [
        | inl failed ↦ (((λ e. absurd (ground arith)), pass), inr (inl failed))
        | inr (inl (x, raised, broken)) ↦
            (((λ e. absurd (ground arith)), pass), inr (inr (x, raised, broken)))
        | inr (inr (passed, m)) ↦ (((λ e. m), pass), inl passed)
      ]
