-- ===== src/Config/Safe.antt =====
-- What a configuration without problems brings.
use online_prorab.Common.{
  ◌*◌, String, ◌≡◌, refl, ap, inl, inr, Bool, true, false, ◌||◌, none, List, [], ◌∷◌, ◌++◌, arith,
  eq_iff, str_eq, if◌then◌else◌, Bool-cases,
}
use online_prorab.Common.Int.{is_below, is_above}
use online_prorab.Text.{equal_fold}
use online_prorab.Config.{Config, Net, is_production_like}
use online_prorab.Config.Key.{Float, is_unsafe_signing_key}
use online_prorab.Config.Values.{minute, contains_string}
use online_prorab.Config.Rules.{
  problem, is_blank, some_of, storage_problems, review_problems, staging_problems, price_problems,
}
use online_prorab.Config.Validate.{sms_problems, validate_obank_config, sandbox_problems}
use online_prorab.Config.Production.{
  problems, validate, joined, proxy_problems, production_like_problems,
  validate_verified_database_tls, is_unsafe_production_origin,
}

pub append_none : (xs ys : List String) → xs ++ ys ≡ [] → (xs ≡ []) × (ys ≡ [])
append_none [] ys h = (refl, h)
append_none (x ∷ xs) ys h = absurd (ground arith)

pub no_problem : (test : Bool) (message : String) → problem test message ≡ [] → test ≡ false
no_problem true message h = absurd (ground arith)
no_problem false message h = refl

pub production-staging :
    (s : String) → equal_fold s "production" ≡ true → equal_fold s "staging" ≡ false
unfolding equal_fold
production-staging String.[] h = absurd (ground arith)
production-staging (String.◌∷◌ x s) h = ground arith

joined-none : (ps : List String) → joined ps ≡ none → ps ≡ []
joined-none [] h = refl
joined-none (p ∷ ps) h = absurd (ground arith)

module _ {A W : Type 0} (net : Net A) (fl : Float W) (c : Config) where
  -- No check of Validate finds a problem.
  pub record Clean : Type 0 where
    pub storage : storage_problems c ≡ []
    pub sms : sms_problems net c ≡ []
    pub obank : validate_obank_config net c ≡ []
    pub review : review_problems c ≡ []
    pub staging : staging_problems c ≡ []
    pub price : price_problems c ≡ []
    pub sandbox : sandbox_problems net c ≡ []
    pub production_like :
        (if is_production_like c then production_like_problems net fl c else []) ≡ []

  pub clean : validate net fl c ≡ none → Clean
  unfolding validate problems
  clean valid =
      let (a, h1) = append_none _ _ (joined-none (problems net fl c) valid) in
      let (b, h2) = append_none _ _ h1 in
      let (d, h3) = append_none _ _ h2 in
      let (e, h4) = append_none _ _ h3 in
      let (f, h5) = append_none _ _ h4 in
      let (g, h6) = append_none _ _ h5 in
      let (i, h7) = append_none _ _ h6 in
      let (j, h8) = append_none _ _ h7 in
      let (k, l) = append_none _ _ h8 in
      record {
        storage = b;
        sms = e;
        obank = f;
        review = g;
        staging = i;
        price = j;
        sandbox = k;
        production_like = l;
      }

pub some_of-none :
    (p : String → Bool) (xs : List String) (x : String)
    → some_of p xs ≡ false
    → contains_string xs x ≡ true
    → p x ≡ false
unfolding contains_string
some_of-none p [] x h m = absurd (ground arith)
some_of-none p (y ∷ xs) x h m = elim (Bool-cases (str_eq y x)) [
  | inl e ↦ let same : p y ≡ p x = ap p ((eq_iff y x).0 e) in ground arith
  | inr e ↦ some_of-none p xs x (ground arith) (ground arith)
]

module _ {A W : Type 0} (net : Net A) (fl : Float W) (c : Config) (valid : validate net fl c ≡ none)
    (live : is_production_like c ≡ true) where
  -- The checks of staging and production find nothing.
  pub record Checked : Type 0 where
    pub secret : is_blank c.jwt_secret ≡ false
    pub key : is_unsafe_signing_key fl c.jwt_secret ≡ false
    pub ttl :
        (is_below c.access_token_ttl (5 * minute) || is_above c.access_token_ttl (60 * minute))
        ≡ false
    pub origins : some_of (is_unsafe_production_origin net) c.cors_allowed_origins ≡ false
    pub proxies : proxy_problems net c ≡ []
    pub tls : validate_verified_database_tls net c.database_url ≡ []

  pub checked : Checked
  checked =
      let h = (clean net fl c valid).production_like in
      let h0 : production_like_problems net fl c ≡ [] = ground arith in
      let (a, h1) = append_none _ _ h0 in
      let (b, h2) = append_none _ _ h1 in
      let (d, h3) = append_none _ _ h2 in
      let (e, f) = append_none _ _ h3 in
      let (s1, k1) = append_none _ _ a in
      let (s2, k2) = append_none _ _ k1 in
      let (s3, s4) = append_none _ _ k2 in
      let (o1, o2) = append_none _ _ b in
      record {
        secret = no_problem _ _ s2;
        key = no_problem _ _ s3;
        ttl = no_problem _ _ s4;
        origins = no_problem _ _ o2;
        proxies = d;
        tls = f;
      }
