-- ===== src/Broker/Laws.antt =====
-- What the channels of the event broker keep, whatever is published, subscribed and unsubscribed.
use block_storage_api.Prelude.{
  ℕ, ◌+◌, ◌≤◌, ◌<◌, String, ◌≡◌, refl, ◌∙◌, true, false, some, List, [], ◌∷◌, ◌++◌, arith, ◌==◌,
  eq_iff, eqb, length, length-append, if◌then◌else◌, inl, inr, Option-cases,
}
use block_storage_api.Prelude.Dict.{lookup, insert, lookup-insert}
use block_storage_api.Dependency.{VolumeStateEvent}
use block_storage_api.Broker.{
  EventBroker, new_event_broker, subscribed, send, send_all, publish, subscribe, remove_first,
  unsubscribe, update, receive, without_first,
}

-- How often a channel stands in a list of subscribers.
abbrev pub count : ℕ → List ℕ → ℕ
count c [] = 0
count c (d ∷ ds) = (if eqb d c then 1 else 0) + count c ds

count-snoc :
    (c d : ℕ) (cs : List ℕ) → count c (cs ++ d ∷ []) ≡ count c cs + (if eqb d c then 1 else 0)
count-snoc c d [] = ground arith
count-snoc c d (x ∷ cs) = ground (arith, count-snoc c d cs)

-- A registered channel is open, was made by the broker and is registered once, under one name; no buffer
-- holds more than 16 events; and no send has met a closed channel.
pub record IsValid (b : EventBroker) : Type 0 where
  pub opened : (n : String) (c : ℕ) → 1 ≤ count c (subscribed n b) → (b.channels c).closed ≡ false
  pub below : (n : String) (c : ℕ) → 1 ≤ count c (subscribed n b) → c < b.next_channel
  pub once : (n : String) (c : ℕ) → count c (subscribed n b) ≤ 1
  pub apart :
      (n m : String) (c : ℕ)
      → 1 ≤ count c (subscribed n b)
      → 1 ≤ count c (subscribed m b)
      → n == m ≡ true
  pub bounded : (c : ℕ) → length (b.channels c).buffer ≤ 16
  pub calm : b.panicked ≡ false

pub new-IsValid : IsValid new_event_broker
unfolding new_event_broker lookup
new-IsValid = record {
  opened = λ n c h. refl;
  below = λ n c h. ground arith;
  once = λ n c. omega arith;
  apart = λ n m c h k. ground arith;
  bounded = λ c. omega arith;
  calm = refl;
}

send-IsValid :
    (e : VolumeStateEvent) (c : ℕ) (b : EventBroker)
    → (b.channels c).closed ≡ false
    → IsValid b
    → IsValid (send e c b)
unfolding send
send-IsValid e c b o h = record {
  opened = λ n d q. ground (arith, h.opened n d);
  below = λ n d q. ground (arith, h.below n d);
  once = λ n d. ground (arith, h.once n d);
  apart = λ n m d q r. ground (arith, h.apart n m d);
  bounded = λ d. ground (arith, h.bounded d, length-append (b.channels c).buffer (e ∷ []));
  calm = ground (arith, h.calm);
}

send_closed :
    (e : VolumeStateEvent) (c d : ℕ) (b : EventBroker)
    → ((send e c b).channels d).closed ≡ (b.channels d).closed
unfolding send
send_closed e c d b = ground arith

send_all-IsValid :
    (e : VolumeStateEvent) (cs : List ℕ) (b : EventBroker)
    → ((d : ℕ) → 1 ≤ count d cs → (b.channels d).closed ≡ false)
    → IsValid b
    → IsValid (send_all e cs b)
unfolding send_all
send_all-IsValid e [] b o h = h
send_all-IsValid e (c ∷ cs) b o h =
    send_all-IsValid e cs (send e c b) (λ d q. send_closed e c d b ∙ o d (ground arith))
      (send-IsValid e c b (o c (ground arith)) h)

pub publish-IsValid :
    (n : String) (e : VolumeStateEvent) (b : EventBroker) → IsValid b → IsValid (publish n e b)
unfolding publish
publish-IsValid n e b h = send_all-IsValid e (subscribed n b) b (h.opened n) h

subscribed-subscribe :
    (n m : String) (b : EventBroker)
    → subscribed m (subscribe n b).1
      ≡ (if n == m then subscribed n b ++ b.next_channel ∷ [] else subscribed m b)
unfolding subscribe
subscribed-subscribe n m b =
    ground (arith, lookup-insert n m (subscribed n b ++ b.next_channel ∷ []) b.subscribers)

count-subscribe :
    (n m : String) (c : ℕ) (b : EventBroker)
    → count c (subscribed m (subscribe n b).1) ≡ (
        if n == m
        then (if eqb b.next_channel c then 1 else 0) + count c (subscribed m b)
        else count c (subscribed m b))
count-subscribe n m c b =
    ground
      (arith, subscribed-subscribe n m b, eq_iff n m, count-snoc c b.next_channel (subscribed n b))

pub subscribe-IsValid : (n : String) (b : EventBroker) → IsValid b → IsValid (subscribe n b).1
unfolding subscribe
subscribe-IsValid n b h = record {
  opened = λ m c q. ground (arith, h.opened m c, count-subscribe n m c b);
  below = λ m c q. ground (arith, h.below m c, count-subscribe n m c b);
  once = λ m c. ground (arith, h.once m c, h.below m c, count-subscribe n m c b);
  apart = λ m k c q r. ground (
    arith,
    h.apart m k c,
    h.below m c,
    h.below k c,
    count-subscribe n m c b,
    count-subscribe n k c b,
    eq_iff n m,
    eq_iff n k,
    eq_iff m k,
  );
  bounded = λ c. ground (arith, h.bounded c);
  calm = h.calm;
}

-- Removing the first entry takes one from the count of that channel.
count-remove_first :
    (c d : ℕ) (cs ds : List ℕ)
    → remove_first c cs ≡ some ds
    → count d cs ≡ (if eqb c d then 1 else 0) + count d ds
unfolding remove_first
count-remove_first c d [] ds h = ground arith
count-remove_first c d (x ∷ cs) ds h = elim (Option-cases (remove_first c cs)) [
  | inl e ↦ ground arith
  | inr (rest, e) ↦ ground (arith, count-remove_first c d cs rest e)
]

abbrev removed : String → ℕ → List ℕ → EventBroker → EventBroker
removed n c cs b = record b {
  subscribers = insert n cs b.subscribers;
  channels = update b.channels c (record (b.channels c) { closed = true });
}

count-removed :
    (n m : String) (c d : ℕ) (cs : List ℕ) (b : EventBroker)
    → remove_first c (subscribed n b) ≡ some cs
    → count d (subscribed m b) ≡ (
        if n == m
        then (if eqb c d then 1 else 0) + count d (subscribed m (removed n c cs b))
        else count d (subscribed m (removed n c cs b)))
count-removed n m c d cs b h = ground (
  arith,
  count-remove_first c d (subscribed n b) cs h,
  lookup-insert n m cs b.subscribers,
  eq_iff n m,
)

removed-IsValid :
    (n : String) (c : ℕ) (cs : List ℕ) (b : EventBroker)
    → remove_first c (subscribed n b) ≡ some cs
    → IsValid b
    → IsValid (removed n c cs b)
removed-IsValid n c cs b e h =
    let there : (m : String) (d : ℕ)
        → count d (subscribed m b) ≡ (
            if n == m
            then (if eqb c d then 1 else 0) + count d (subscribed m (removed n c cs b))
            else count d (subscribed m (removed n c cs b))) =
      λ m d. count-removed n m c d cs b e in
    record {
      opened = λ m d q. ground (
        arith,
        h.opened m d,
        h.once m d,
        h.once n d,
        h.apart n m d,
        there m d,
        there n d,
        eq_iff n n,
        eq_iff n m,
      );
      below = λ m d q. ground (arith, h.below m d, there m d);
      once = λ m d. ground (arith, h.once m d, there m d);
      apart = λ m k d q r. ground (arith, h.apart m k d, there m d, there k d);
      bounded = λ d. ground (arith, h.bounded d);
      calm = h.calm;
    }

pub unsubscribe-IsValid :
    (n : String) (c : ℕ) (b : EventBroker) → IsValid b → IsValid (unsubscribe n c b)
unfolding unsubscribe
unsubscribe-IsValid n c b h = elim (Option-cases (remove_first c (subscribed n b))) [
  | inl e ↦ rw e h
  | inr (cs, e) ↦ rw e (removed-IsValid n c cs b e h)
]

without_first-length :
    (es : List VolumeStateEvent) → length es ≤ 16 → length (without_first es) ≤ 16
without_first-length [] h = h
without_first-length (e ∷ es) h = omega arith

pub receive-IsValid : (c : ℕ) (b : EventBroker) → IsValid b → IsValid (receive c b)
unfolding receive
receive-IsValid c b h = record {
  opened = λ n d q. ground (arith, h.opened n d);
  below = λ n d q. h.below n d q;
  once = λ n d. h.once n d;
  apart = λ n m d q r. h.apart n m d q r;
  bounded =
      λ d. ground (arith, h.bounded d, without_first-length (b.channels c).buffer (h.bounded c));
  calm = h.calm;
}

-- The calls of the broker's methods.
pub data Command : Type 0 where
  publishes : String → VolumeStateEvent → Command
  subscribes : String → Command
  unsubscribes : String → ℕ → Command

abbrev pub obey : Command → EventBroker → EventBroker
obey (publishes n e) b = publish n e b
obey (subscribes n) b = (subscribe n b).1
obey (unsubscribes n c) b = unsubscribe n c b

abbrev pub run : List Command → EventBroker → EventBroker
run [] b = b
run (x ∷ xs) b = run xs (obey x b)

obey-IsValid : (x : Command) (b : EventBroker) → IsValid b → IsValid (obey x b)
obey-IsValid (publishes n e) b h = publish-IsValid n e b h
obey-IsValid (subscribes n) b h = subscribe-IsValid n b h
obey-IsValid (unsubscribes n c) b h = unsubscribe-IsValid n c b h

run_from-IsValid : (xs : List Command) (b : EventBroker) → IsValid b → IsValid (run xs b)
run_from-IsValid [] b h = h
run_from-IsValid (x ∷ xs) b h = run_from-IsValid xs (obey x b) (obey-IsValid x b h)

-- After any sequence of publishes, subscriptions and unsubscriptions of a new broker, among them
-- repeated and mistaken ones, no publish has sent on a closed channel, a registered channel is open and
-- registered once, and no buffer holds more than 16 events.
pub run-IsValid : (xs : List Command) → IsValid (run xs new_event_broker)
run-IsValid xs = run_from-IsValid xs new_event_broker new-IsValid
