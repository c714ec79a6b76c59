-- ===== src/Login/Machine.antt =====
-- A code as an abstract machine, which the table implements.
use mathlib.Core.Path.{subst}
use online_prorab.Common.{
  ℕ, suc, ◌+◌, ◌-◌, ◌≤◌, ◌<◌, String, ◌≡◌, refl, ap, ◌∙◌, sym, inl, inr, Bool, true, false, Option,
  none, some, List, [], ◌∷◌, ◌++◌, arith, str_eq, eq_iff, find_where, count_where, update_where,
  delete_where, count_where-append, find_where-append, find_where-delete_where, if◌then◌else◌,
  is_none, Bool-cases, find_where-update_where, option_map,
}
use online_prorab.Common.Order.{count-update_le, count_none, count-found, count-delete_where}
use online_prorab.Database.{Env}
use online_prorab.Login.{
  LoginCode, Store, Settings, has_id, consume, is_older, deliver, cleanup_sms_code,
  invalidate_older_sms_codes,
}
use online_prorab.Login.Verify.{add_attempt}
use online_prorab.Login.Codes.{IsUnique}

-- A code that is still good, after so many wrong guesses, or one that is spent.
pub data Phase : Type 0 where
  guessing : ℕ → Phase
  spent : Phase

-- A one-time code: at most five wrong guesses, and nothing after it is spent.
pub data Steps : Phase → Phase → Type 0 where
  stop : {p : Phase} → Steps p p
  miss : {n : ℕ} {q : Phase} → n < 5 → Steps (guessing (suc n)) q → Steps (guessing n) q
  spend : {n : ℕ} {q : Phase} → Steps spent q → Steps (guessing n) q

pub Steps-trans : {p q r : Phase} → Steps p q → Steps q r → Steps p r
Steps-trans stop t = t
Steps-trans (miss h s) t = miss h (Steps-trans s t)
Steps-trans (spend s) t = spend (Steps-trans s t)

abbrev pub phase_of : ℕ → Option ℕ → Phase
phase_of n none = guessing n
phase_of n (some t) = spent

abbrev pub phase : LoginCode → Phase
phase c = phase_of c.attempts c.consumed_at

-- The row under the id of `c` afterwards, which the machine reaches, with `k` wrong guesses more: no
-- more than were left.
pub record Reached (k : ℕ) (c c' : LoginCode) : Type 0 where
  pub same_hash : c'.code_hash ≡ c.code_hash
  pub same_phone : c'.phone ≡ c.phone
  pub same_expiry : c'.expires_at ≡ c.expires_at
  pub steps : Steps (phase c) (phase c')
  pub counted : c'.attempts ≡ c.attempts + k
  pub within : k ≤ 5 - c.attempts

pub Reached-refl : (c : LoginCode) → Reached 0 c c
Reached-refl c = record {
  same_hash = refl;
  same_phone = refl;
  same_expiry = refl;
  steps = stop;
  counted = omega arith;
  within = omega arith;
}

Reached-trans : {k j : ℕ} {a b c : LoginCode} → Reached k a b → Reached j b c → Reached (k + j) a c
Reached-trans p q = record {
  same_hash = q.same_hash ∙ p.same_hash;
  same_phone = q.same_phone ∙ p.same_phone;
  same_expiry = q.same_expiry ∙ p.same_expiry;
  steps = Steps-trans p.steps q.steps;
  counted = omega (arith, p.counted, q.counted);
  within = omega (arith, p.counted, p.within, q.within);
}

pub spend_any : (now : ℕ) (c : LoginCode) → Reached 0 c (consume now c)
spend_any now c = record {
  same_hash = refl;
  same_phone = refl;
  same_expiry = refl;
  steps = spending c.attempts c.consumed_at;
  counted = omega arith;
  within = omega arith;
}
  where
    spending : (n : ℕ) (o : Option ℕ) → Steps (phase_of n o) spent
    spending n none = spend stop
    spending n (some t) = stop

pub miss_one :
    (c : LoginCode) → is_none c.consumed_at ≡ true → c.attempts < 5 → Reached 1 c (add_attempt c)
miss_one c live few = record {
  same_hash = refl;
  same_phone = refl;
  same_expiry = refl;
  steps = missing c.attempts c.consumed_at live few;
  counted = omega arith;
  within = omega arith;
}
  where
    missing :
        (n : ℕ) (o : Option ℕ)
        → is_none o ≡ true
        → n < 5
        → Steps (phase_of n o) (phase_of (suc n) o)
    missing n none l f = miss f stop
    missing n (some t) l f = absurd (ground arith)

-- What becomes of a row and of the uniqueness of ids, with `k` wrong guesses.
pub record Refines (id : String) (k : ℕ) (c : LoginCode) (codes' : List LoginCode) : Type 0 where
  pub unique : IsUnique codes'
  pub row : LoginCode
  pub found : find_where (has_id id) codes' ≡ some row
  pub reached : Reached k c row

pub unmoved :
    (id : String) (c : LoginCode) (codes codes' : List LoginCode)
    → codes' ≡ codes
    → IsUnique codes
    → find_where (has_id id) codes ≡ some c
    → Refines id 0 c codes'
unmoved id c codes codes' e u f = record {
  unique = λ k. omega (arith, u k, ap (count_where (has_id k)) e);
  row = c;
  found = ap (find_where (has_id id)) e ∙ f;
  reached = Reached-refl c;
}

pub updated :
    (id : String) (k : ℕ) (c : LoginCode) (codes codes' : List LoginCode) (p : LoginCode → Bool)
    (g : LoginCode → LoginCode)
    → codes' ≡ update_where p g codes
    → ((x : LoginCode) → (g x).id ≡ x.id)
    → IsUnique codes
    → find_where (has_id id) codes ≡ some c
    → (p c ≡ true → Reached k c (g c))
    → (p c ≡ false → k ≡ 0)
    → Refines id k c codes'
updated id k c codes codes' p g e keep u f moves stays = record {
  unique = λ i. omega (
    arith,
    u i,
    ap (count_where (has_id i)) e,
    count-update_le p (has_id i) g codes (λ x t. ap (λ j. str_eq j i) (sym (keep x)) ∙ t),
  );
  row = if p c then g c else c;
  found =
      ap (find_where (has_id id)) e
      ∙ find_where-update_where (has_id id) p g codes (λ x. ap (λ i. str_eq i id) (keep x))
      ∙ ap (option_map (λ x. if p x then g x else x)) f;
  reached = choose (p c) moves stays;
}
  where
    choose :
        (b : Bool)
        → (b ≡ true → Reached k c (g c))
        → (b ≡ false → k ≡ 0)
        → Reached k c (if b then g c else c)
    choose true m n = m refl
    choose false m n = subst (λ j. Reached j c c) (sym (n refl)) (Reached-refl c)

pub Refines-trans :
    (id : String) (k j : ℕ) (c : LoginCode) (mid codes' : List LoginCode) (r : Refines id k c mid)
    → Refines id j r.row codes'
    → Refines id (k + j) c codes'
Refines-trans id k j c mid codes' r s = record {
  unique = s.unique;
  row = s.row;
  found = s.found;
  reached = Reached-trans r.reached s.reached;
}

-- A new row with an id of its own.
pub added :
    (id : String) (c new : LoginCode) (codes : List LoginCode)
    → find_where (has_id new.id) codes ≡ none
    → IsUnique codes
    → find_where (has_id id) codes ≡ some c
    → Refines id 0 c (codes ++ new ∷ [])
added id c new codes free u f = record {
  unique = λ k. ground (
    arith,
    count_where-append (has_id k) codes new,
    count_none (has_id new.id) codes free,
    eq_iff new.id k,
    u k,
  );
  row = c;
  found = find_where-append (has_id id) codes (new ∷ []) f;
  reached = Reached-refl c;
}

-- Deleting another row.
pub deleted :
    (id other : String) (c : LoginCode) (codes : List LoginCode)
    → has_id other c ≡ false
    → IsUnique codes
    → find_where (has_id id) codes ≡ some c
    → Refines id 0 c (delete_where (has_id other) codes)
deleted id other c codes apart u f = record {
  unique = λ k. omega (arith, u k, count-delete_where (has_id other) (has_id k) codes);
  row = c;
  found = find_where-delete_where (has_id id) (has_id other) codes c f apart;
  reached = Reached-refl c;
}

pub not_fresh :
    (id fresh : String) (c : LoginCode) (codes : List LoginCode)
    → find_where (has_id fresh) codes ≡ none
    → find_where (has_id id) codes ≡ some c
    → has_id fresh c ≡ false
not_fresh id fresh c codes free f = elim (Bool-cases (has_id fresh c)) [
  | inr differs ↦ differs
  | inl same ↦ absurd (
      omega (
        arith,
        count-found (has_id id) (has_id fresh) codes c f same,
        count_none (has_id fresh) codes free,
      ))
]

-- A delivery cleans up its own code, or spends the older ones.
pub deliver-Refines :
    (s : Settings) (env : Env) (delivered : Bool) (fresh phone code id : String) (c : LoginCode)
    (st : Store)
    → has_id fresh c ≡ false
    → IsUnique st.codes
    → find_where (has_id id) st.codes ≡ some c
    → Refines id 0 c (deliver s env delivered fresh phone code st).1.codes
unfolding deliver cleanup_sms_code invalidate_older_sms_codes
deliver-Refines s env delivered fresh phone code id c st apart u f =
    let same = unmoved id c st.codes st.codes refl u f in
    let cleaned = deleted id fresh c st.codes apart u f in
    let older =
      updated id 0 c st.codes (update_where (is_older phone fresh) (consume env.db_clock) st.codes)
        (is_older phone fresh) (consume env.db_clock) refl (λ x. refl) u f
        (λ t. spend_any env.db_clock c) (λ t. refl) in
    ground arith
