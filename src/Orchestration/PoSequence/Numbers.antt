-- ===== src/Orchestration/PoSequence/Numbers.antt =====
-- The numbers that a user gets.
use onetrackmind.Common.{
  ℕ, ◌+◌, ◌≤◌, Bool, false, List, [], ◌∷◌, Text, Text-Eq, text_eq_iff, ◌==◌, ==_refl, filter,
  length, if◌then◌else◌, ◌≡◌, refl, sym, ap, ◌∙◌, inl, inr, Bool-cases, arith,
}
use onetrackmind.Orchestration.PoSequence.{
  Counters, counter_of, set_counter, PoSequenceStore, warns, allocate_next, allocations,
}

counter_of-set_counter-same :
    (u : Text) (n : ℕ) (counters : Counters) → counter_of (set_counter u n counters) u ≡ n
unfolding counter_of set_counter
counter_of-set_counter-same u n [] = rw (counter_of, ==_refl u) refl
counter_of-set_counter-same u n ((v, m) ∷ counters) = elim (Bool-cases (v == u)) [
  | inl here ↦ rw (set_counter, here, counter_of, here) refl
  | inr other ↦
      rw (set_counter, other, counter_of, other) (counter_of-set_counter-same u n counters)
]

counter_of-set_counter-other :
    (u v : Text) (n : ℕ) (counters : Counters)
    → (v == u) ≡ false
    → counter_of (set_counter v n counters) u ≡ counter_of counters u
unfolding counter_of set_counter
counter_of-set_counter-other u v n [] apart = rw (counter_of, apart) refl
counter_of-set_counter-other u v n ((w, m) ∷ counters) apart = elim (Bool-cases (w == v)) [
  | inl here ↦
      let not_u : (w == u) ≡ false = ap (λ x. x == u) ((text_eq_iff w v).0 here) ∙ apart in
      rw (set_counter, here, counter_of, not_u) refl
  | inr other ↦ elim (Bool-cases (w == u)) [
    | inl at_u ↦ rw (set_counter, other, counter_of, at_u) refl
    | inr off_u ↦
        rw (set_counter, other, counter_of, off_u)
          (counter_of-set_counter-other u v n counters apart)
  ]
]

-- The numbers given to one user, in the order of the calls.
unfoldable pub numbers_of : Text → List (Text × ℕ) → List ℕ
numbers_of u [] = []
numbers_of u ((v, n) ∷ answers) =
    let rest = numbers_of u answers in if v == u then n ∷ rest else rest

-- As many numbers as there are requests, one after the other from the one after `n`.
unfoldable pub numbered : ℕ → List Text → List ℕ
numbered n [] = []
numbered n (request ∷ requests) = (n + 1) ∷ numbered (n + 1) requests

module _ (production : Bool) where
  allocations-numbers :
      (u : Text) (requests : List Text) (store : PoSequenceStore)
      → numbers_of u (allocations production requests store).0
        ≡ numbered (counter_of store.counters u) (filter (λ v. v == u) requests)
  unfolding allocations allocate_next numbers_of numbered set_counter counter_of
  allocations-numbers u [] store = refl
  allocations-numbers u (v ∷ requests) store = elim (Bool-cases (v == u)) [
    | inl here ↦
        let same = (text_eq_iff v u).0 here in
        let found : counter_of store.counters v ≡ counter_of store.counters u =
          ap (λ x. counter_of store.counters x) same in
        let stored : counter_of (allocate_next production v store).1.counters u
            ≡ counter_of store.counters u + 1 =
          ap (counter_of (allocate_next production v store).1.counters) (sym same)
          ∙ counter_of-set_counter-same v (counter_of store.counters v + 1) store.counters
          ∙ ap (λ n. n + 1) found in
        let rest = allocations-numbers u requests (allocate_next production v store).1 in
        rw (filter, here, rest, stored, found) refl
    | inr other ↦
        let stored =
          counter_of-set_counter-other u v (counter_of store.counters v + 1) store.counters other in
        let rest = allocations-numbers u requests (allocate_next production v store).1 in
        rw (filter, other, rest, stored) refl
  ]

  -- A call warns at most where none has warned before.
  warns-allocate_next :
      (v : Text) (store : PoSequenceStore)
      → warns production (allocate_next production v store).1 ≡ false
  unfolding allocate_next
  warns-allocate_next v store = elim (Bool-cases (warns production store)) [
    | inl loud ↦ rw (loud) refl
    | inr quiet ↦ rw (quiet) quiet
  ]

  allocations_silent :
      (requests : List Text) (store : PoSequenceStore)
      → warns production store ≡ false
      → (allocations production requests store).1 ≡ []
  unfolding allocations allocate_next
  allocations_silent [] store quiet = refl
  allocations_silent (v ∷ requests) store quiet =
      let rest =
        allocations_silent requests (allocate_next production v store).1
          (warns-allocate_next v store) in
      rw (rest, quiet) refl

  warned_once :
      (requests : List Text) (store : PoSequenceStore)
      → length (allocations production requests store).1 ≤ 1
  unfolding allocations allocate_next
  warned_once [] store = omega arith
  warned_once (v ∷ requests) store =
      let rest =
        allocations_silent requests (allocate_next production v store).1
          (warns-allocate_next v store) in
      elim (Bool-cases (warns production store)) [
        | inl loud ↦ rw (rest, loud) (omega arith)
        | inr quiet ↦ rw (rest, quiet) (omega arith)
      ]

  -- Whatever calls are made for whatever users: each user gets the whole numbers after its counter, in
  -- order and without a gap or a repeat, one for each of its own requests, and the store warns once at
  -- most.
  pub allocations-numbered :
      (requests : List Text) (u : Text) (store : PoSequenceStore)
      → (numbers_of u (allocations production requests store).0
          ≡ numbered (counter_of store.counters u) (filter (λ v. v == u) requests))
        × (length (allocations production requests store).1 ≤ 1)
  allocations-numbered requests u store =
      (allocations-numbers u requests store, warned_once requests store)
