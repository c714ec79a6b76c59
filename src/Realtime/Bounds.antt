-- ===== src/Realtime/Bounds.antt =====
-- The limits of the hub, and who receives an event.
use online_prorab.Common.{
  ℕ, suc, ◌+◌, ◌≤◌, String, ◌≡◌, refl, ap, Bool, false, some, List, [], ◌∷◌, ◌++◌, arith, ◌==◌,
  str_eq, eq_iff, length, count_where, update_where, delete_where, count_where-update_where,
  find_where, find_where-update_where, ◌⊎◌,
}
use online_prorab.Realtime.{
  Subscriber, Hub, max_realtime_connections, max_realtime_connections_per_user, channel_capacity,
  of_user, subscribe, unsubscribe, contains, wants, send, publish,
}

-- Every channel holds at most its capacity and every id was handed out.
abbrev pub Sound : ℕ → List Subscriber → Type 0
Sound n [] = Unit {0}
Sound n (s ∷ ss) = (s.id ≤ n) × (length s.events ≤ channel_capacity) × Sound n ss

pub record IsValid (h : Hub) : Type 0 where
  pub few : length h.subscribers ≤ max_realtime_connections
  pub few_each :
      (user : String) → count_where (of_user user) h.subscribers ≤ max_realtime_connections_per_user
  pub sound : Sound h.next_id h.subscribers

Sound-mono : (m n : ℕ) (ss : List Subscriber) → m ≤ n → Sound m ss → Sound n ss
Sound-mono m n [] h s = tt
Sound-mono m n (x ∷ ss) h s = (omega arith, s.1, Sound-mono m n ss h s.2)

-- A subscription keeps the hub within its limits: 256 connections, 8 for each user.
pub subscribe-IsValid :
    (user project : String) (h : Hub) → IsValid h → IsValid (subscribe user project h).1
unfolding subscribe count_where
subscribe-IsValid user project h v = record {
  few = ground arith;
  few_each = λ u. ground (arith, v.few_each u, v.few_each user, eq_iff user u);
  sound = ground (arith, Sound-mono h.next_id (h.next_id + 1) h.subscribers);
}

length-delete_where :
    (p : Subscriber → Bool) (ss : List Subscriber) → length (delete_where p ss) ≤ length ss
unfolding delete_where
length-delete_where p [] = ground arith
length-delete_where p (s ∷ ss) = ground (arith, length-delete_where p ss)

count-delete_where :
    (p q : Subscriber → Bool) (ss : List Subscriber)
    → count_where q (delete_where p ss) ≤ count_where q ss
unfolding delete_where count_where
count-delete_where p q [] = ground arith
count-delete_where p q (s ∷ ss) = ground (arith, count-delete_where p q ss)

delete_where-Sound :
    (p : Subscriber → Bool) (n : ℕ) (ss : List Subscriber)
    → Sound n ss
    → Sound n (delete_where p ss)
unfolding delete_where
delete_where-Sound p n [] v = tt
delete_where-Sound p n (s ∷ ss) v = ground (arith, delete_where-Sound p n ss v.2)

-- Leaving keeps the hub within its limits.
pub unsubscribe-IsValid : (id : ℕ) (h : Hub) → IsValid h → IsValid (unsubscribe id h)
unfolding unsubscribe
unsubscribe-IsValid id h v = record {
  few = omega (arith, length-delete_where (λ s. s.id == id) h.subscribers, v.few);
  few_each = λ u.
      omega (arith, count-delete_where (λ s. s.id == id) (of_user u) h.subscribers, v.few_each u);
  sound = delete_where-Sound (λ s. s.id == id) h.next_id h.subscribers v.sound;
}

length-snoc : (es : List String) (e : String) → length (es ++ e ∷ []) ≡ suc (length es)
length-snoc [] e = refl
length-snoc (x ∷ es) e = ap suc (length-snoc es e)

length-update_where :
    (p : Subscriber → Bool) (f : Subscriber → Subscriber) (ss : List Subscriber)
    → length (update_where p f ss) ≡ length ss
unfolding update_where
length-update_where p f [] = refl
length-update_where p f (s ∷ ss) = ap suc (length-update_where p f ss)

send-Sound :
    (p : Subscriber → Bool) (payload : String) (n : ℕ) (ss : List Subscriber)
    → Sound n ss
    → Sound n (update_where p (send payload) ss)
unfolding update_where
send-Sound p payload n [] v = tt
send-Sound p payload n (s ∷ ss) v =
    ground (arith, send-Sound p payload n ss v.2, length-snoc s.events payload)

-- Publishing keeps the hub within its limits: no channel holds more than 32 payloads, however slowly
-- it is read.
pub publish-IsValid :
    (project : String) (users : List String) (payload : String) (h : Hub)
    → IsValid h
    → IsValid (publish project users payload h)
unfolding publish
publish-IsValid project users payload h v = record {
  few =
      omega (arith, length-update_where (wants project users) (send payload) h.subscribers, v.few);
  few_each = λ u. omega (
    arith,
    count_where-update_where (of_user u) (wants project users) (send payload) h.subscribers
        (λ s t. ground arith),
    v.few_each u,
  );
  sound = send-Sound (wants project users) payload h.next_id h.subscribers v.sound;
}

-- The calls on the hub.
pub data Operation : Type 0 where
  join : (user project : String) → Operation
  leave : ℕ → Operation
  announce : (project : String) → List String → (payload : String) → Operation

pub apply : Hub → Operation → Hub
apply h (join user project) = (subscribe user project h).1
apply h (leave id) = unsubscribe id h
apply h (announce project users payload) = publish project users payload h

pub run : Hub → List Operation → Hub
run h [] = h
run h (o ∷ os) = run (apply h o) os

abbrev pub empty : Hub
empty = record { next_id = 0; subscribers = [] }

apply-IsValid : (h : Hub) (o : Operation) → IsValid h → IsValid (apply h o)
unfolding apply
apply-IsValid h (join user project) v = subscribe-IsValid user project h v
apply-IsValid h (leave id) v = unsubscribe-IsValid id h v
apply-IsValid h (announce project users payload) v = publish-IsValid project users payload h v

run_from-IsValid : (h : Hub) (os : List Operation) → IsValid h → IsValid (run h os)
unfolding run
run_from-IsValid h [] v = v
run_from-IsValid h (o ∷ os) v = run_from-IsValid (apply h o) os (apply-IsValid h o v)

-- After any calls there are at most 256 connections, at most 8 of each user, and at most 32 payloads
-- in each channel.
pub run-IsValid : (os : List Operation) → IsValid (run empty os)
run-IsValid os =
    run_from-IsValid empty os
      (record { few = omega arith; few_each = λ u. unfold count_where in omega arith; sound = tt })

-- An event reaches nobody outside the list of users that it is for, and no subscription to another
-- project: such a subscriber is found with the same channel afterwards.
pub publish_private :
    (project : String) (users : List String) (payload : String) (h : Hub) (id : ℕ) (s : Subscriber)
    → find_where (λ x. x.id == id) h.subscribers ≡ some s
    → (contains users s.user_id ≡ false)
      ⊎ ((str_eq s.project_id "" ≡ false) × (str_eq s.project_id project ≡ false))
    → find_where (λ x. x.id == id) (publish project users payload h).subscribers ≡ some s
unfolding publish
publish_private project users payload h id s f out = ground (
  arith,
  find_where-update_where (λ x. x.id == id) (wants project users) (send payload) h.subscribers
      (λ x. ground arith),
)
