-- ===== src/Events/Registry/Lists.antt =====
-- src/events.rs: replacing and removing one subscriber in the list.
use minde.Base.{
  ℕ, ◌+◌, ◌≤◌, ◌≡◌, refl, List, [], ◌∷◌, ◌++◌, none, some, All, All-append, All-left, All-right,
  count, count-append, ◌==◌, Bool-cases, ap, ◌⊎◌, inl, inr, arith,
}
use minde.Events.Subscriber.{Subscriber}
use minde.Events.Registry.{tokens_of, locate}
use minde.Events.Registry.Rules.{held, Ascending, Ascending-mono}

pub count-held-append :
    (t : ℕ) (xs ys : List Subscriber)
    → count t (held (xs ++ ys)) ≡ count t (held xs) + count t (held ys)
count-held-append t [] ys = omega arith
count-held-append t (x ∷ xs) ys = omega (
  arith,
  count-append t (tokens_of x) (held (xs ++ ys)),
  count-append t (tokens_of x) (held xs),
  count-held-append t xs ys,
)

pub count-held-middle :
    (t : ℕ) (before after : List Subscriber) (s : Subscriber)
    → count t (held (before ++ s ∷ after))
      ≡ count t (held before) + count t (tokens_of s) + count t (held after)
count-held-middle t before after s =
    omega (arith, count-held-append t before (s ∷ after), count-append t (tokens_of s) (held after))

pub Ascending-replace :
    (low high : ℕ) (before after : List Subscriber) (s s' : Subscriber)
    → s'.id ≡ s.id
    → Ascending low (before ++ s ∷ after) high
    → Ascending low (before ++ s' ∷ after) high
Ascending-replace low high [] after s s' e a = (omega (arith, a.0), rw e a.1)
Ascending-replace low high (b ∷ before) after s s' e a =
    (a.0, Ascending-replace (b.id + 1) high before after s s' e a.1)

pub Ascending-remove :
    (low high : ℕ) (before after : List Subscriber) (s : Subscriber)
    → Ascending low (before ++ s ∷ after) high
    → Ascending low (before ++ after) high
Ascending-remove low high [] after s a =
    Ascending-mono (s.id + 1) low high after (omega (arith, a.0)) a.1
Ascending-remove low high (b ∷ before) after s a =
    (a.0, Ascending-remove (b.id + 1) high before after s a.1)

pub Ascending-weaken :
    (low high high' : ℕ) (ss : List Subscriber)
    → high ≤ high'
    → Ascending low ss high
    → Ascending low ss high'
Ascending-weaken low high high' [] h a = omega arith
Ascending-weaken low high high' (s ∷ ss) h a =
    (a.0, Ascending-weaken (s.id + 1) high high' ss h a.1)

pub Ascending-snoc :
    (low high high' : ℕ) (ss : List Subscriber) (s : Subscriber)
    → high ≤ s.id
    → s.id + 1 ≤ high'
    → Ascending low ss high
    → Ascending low (ss ++ s ∷ []) high'
Ascending-snoc low high high' [] s h h' a = (omega arith, omega arith)
Ascending-snoc low high high' (x ∷ ss) s h h' a =
    (a.0, Ascending-snoc (x.id + 1) high high' ss s h h' a.1)

module _ {κ} (P : Subscriber → Type κ) where
  pub All-replace :
      (before after : List Subscriber) (s s' : Subscriber)
      → P s'
      → All P (before ++ s ∷ after)
      → All P (before ++ s' ∷ after)
  All-replace before after s s' p all =
      All-append P before (s' ∷ after) (All-left P before (s ∷ after) all)
        (p, (All-right P before (s ∷ after) all).1)

  pub All-remove :
      (before after : List Subscriber) (s : Subscriber)
      → All P (before ++ s ∷ after)
      → All P (before ++ after)
  All-remove before after s all =
      All-append P before after (All-left P before (s ∷ after) all)
        (All-right P before (s ∷ after) all).1

  pub All_middle :
      (before after : List Subscriber) (s : Subscriber) → All P (before ++ s ∷ after) → P s
  All_middle before after s all = (All-right P before (s ∷ after) all).0

-- Where `locate` finds a subscriber, the list is what stands before it, it, and what stands after.
pub record Located (id : ℕ) (ss : List Subscriber) : Type 0 where
  pub before : List Subscriber
  pub found : Subscriber
  pub after : List Subscriber
  pub result : locate id ss ≡ some (before, found, after)
  pub split : ss ≡ before ++ found ∷ after
  pub same_id : found.id ≡ id

pub locate-cases : (id : ℕ) (ss : List Subscriber) → (locate id ss ≡ none) ⊎ Located id ss
unfolding locate
locate-cases id [] = inl refl
locate-cases id (x ∷ ss) = elim (Bool-cases (x.id == id)) [
  | inl hit ↦ inr (record {
    before = [];
    found = x;
    after = ss;
    result = rw hit;
    split = refl;
    same_id = ground arith;
  })
  | inr miss ↦ elim (locate-cases id ss) [
    | inl missing ↦ inl (rw (miss, missing))
    | inr l ↦ inr (record {
      before = x ∷ l.before;
      found = l.found;
      after = l.after;
      result = rw (miss, l.result);
      split = ap (◌∷◌ x) l.split;
      same_id = l.same_id;
    })
  ]
]
