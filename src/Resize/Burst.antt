-- ===== src/Resize/Burst.antt =====
-- src/grabs/resize_grab.rs: what a burst of motions in one dispatch comes to.
use minde.Base.{
  inl, inr, ℕ, suc, ◌≤◌, ◌≡◌, refl, sym, ap, List, [], ◌∷◌, ◌++◌, none, some, Bool, true, false,
  if◌then◌else◌, Bool-cases, arith,
}
use minde.Resize.{Size, same_size, ResizeConfigureQueue, new_queue, request, take_size}

abbrev pub one_more : Bool → ℕ → ℕ
one_more true n = suc n
one_more false n = n

-- The requests of a burst, with the number of idle callbacks that they ask for.
unfoldable pub request_all : List Size → ResizeConfigureQueue → ℕ × ResizeConfigureQueue
unfolding request
request_all [] q = (0, q)
request_all (x ∷ xs) q =
    let (new, q') = request q x in let (n, q'') = request_all xs q' in (one_more new n, q'')

-- With a size pending, the last one replaces it, and no callback is asked for.
replaced :
    (xs : List Size) (z old sent : Size)
    → request_all (xs ++ z ∷ []) (record { pending = some old; sent = sent })
      ≡ (0, record { pending = some z; sent = sent })
unfolding request_all request
replaced [] z old sent = refl
replaced (x ∷ xs) z old sent = rw (replaced xs z x sent) refl

same_size_sound : (a b : Size) → same_size a b ≡ true → a ≡ b
same_size_sound (w, h) (w', h') e =
    let we : w ≡ w' = ground arith in let he : h ≡ h' = ground arith in rw (we, he) refl

-- What is left when a burst that ends in `z` was taken.
pub record Taken (z sent : Size) (r : ℕ × ResizeConfigureQueue) : Type 0 where
  pub callbacks : r.0 ≤ 1
  pub configured : take_size r.1 ≡ (if same_size z sent then none else some z, new_queue z)
  pub called : r.0 ≡ 0 → r.1.pending ≡ none

unchanged : (z sent : Size) → same_size z sent ≡ true → Taken z sent (0, new_queue sent)
unfolding take_size
unchanged z sent e = record {
  callbacks = omega arith;
  configured = rw e (ap (λ t. (none, new_queue t)) (sym (same_size_sound z sent e)));
  called = λ _. refl;
}

requested :
    (n : ℕ) (z sent : Size) → n ≡ 1 → Taken z sent (n, record { pending = some z; sent = sent })
unfolding take_size
requested n z sent one = record {
  callbacks = omega arith;
  configured = elim (Bool-cases (same_size z sent)) [
    | inl e ↦ rw e (ap (λ t. (none, new_queue t)) (sym (same_size_sound z sent e)))
    | inr e ↦ rw e refl
  ];
  called = λ zero_calls. absurd (omega arith);
}

-- Whatever sizes the motions of one dispatch ask for, at most one idle callback is asked for, and
-- when it runs exactly the last size is configured, unless it is the size that was sent last; without
-- a callback nothing is pending.
pub request_all-Taken :
    (xs : List Size) (z sent : Size) → Taken z sent (request_all (xs ++ z ∷ []) (new_queue sent))
unfolding request_all request
request_all-Taken [] z sent = elim (Bool-cases (same_size z sent)) [
  | inl e ↦ rw e (unchanged z sent e)
  | inr e ↦ rw e (requested 1 z sent refl)
]
request_all-Taken (x ∷ xs) z sent = elim (Bool-cases (same_size x sent)) [
  | inl e ↦ rw e (request_all-Taken xs z sent)
  | inr e ↦ rw (e, replaced xs z x sent) (requested 1 z sent refl)
]
