-- ===== src/Db/Constraints/Dedup.antt =====
-- `decideDedup` of backend/src/db/mapping/dalConstraints.ts. `Date.parse` is the parameter
-- `date_parse`, `none` for NaN; the instants are not before 1970.
use onetrackmind.Common.{
  ℕ, ◌+◌, ◌-◌, ◌*◌, ◌≤◌, Bool, ◌&&◌, not, List, [], ◌∷◌, ◌++◌, Option, none, some, Text, text,
  text_eq, Text-Eq, leb, ◌==◌, All, In, ◌≡◌, if◌then◌else◌, arith, ==_iff, refl, ◌≢◌, Bool-cases,
  Option-cases, inl, inr, ◌≡◌, In, All,
}
use onetrackmind.Common.Results.{Throws, returns, throws, ◌>>=◌}

abbrev pub dedup_window_ms : ℕ
dedup_window_ms = 10 * 60 * 1000

pub record DedupCandidate : Type 0 where
  pub content_hash : Text
  pub created_at : Text

pub data DedupDecision : Type 0 where
  store : DedupDecision
  suppress : DedupCandidate → DedupDecision

abbrev parse_error : Text → Text → Text
parse_error at label =
    text "decideDedup precondition: " ++ (label ++ (text " is not a parseable timestamp: " ++ at))

abbrev ms_or_throw : Text → Text → Option ℕ → Throws Text ℕ
ms_or_throw at label none = throws (parse_error at label)
ms_or_throw at label (some ms) = returns ms

-- `deltaMs >= 0 && deltaMs <= DEDUP_WINDOW_MS`
abbrev pub in_window : ℕ → ℕ → Bool
in_window incoming_ms existing_ms =
    leb existing_ms incoming_ms && leb (incoming_ms - existing_ms) dedup_window_ms

module _ (date_parse : Text → Option ℕ) where
  parse_timestamp_ms_or_throw : Text → Text → Throws Text ℕ
  parse_timestamp_ms_or_throw at label = ms_or_throw at label (date_parse at)

  dedup_loop : Text → ℕ → List DedupCandidate → Throws Text DedupDecision
  unfolding parse_timestamp_ms_or_throw
  dedup_loop hash incoming_ms [] = returns store
  dedup_loop hash incoming_ms (candidate ∷ rest) =
      let later = dedup_loop hash incoming_ms rest in
      let timed : Throws Text DedupDecision = do
        existing_ms ← parse_timestamp_ms_or_throw candidate.created_at (text "existing.createdAt")
        if in_window incoming_ms existing_ms then returns (suppress candidate) else later
      in if not (candidate.content_hash == hash) then later else timed

  unfoldable pub decide_dedup : DedupCandidate → List DedupCandidate → Throws Text DedupDecision
  unfolding dedup_loop parse_timestamp_ms_or_throw text_eq
  decide_dedup incoming existing = do
    incoming_ms ← parse_timestamp_ms_or_throw incoming.created_at (text "incoming.createdAt")
    dedup_loop incoming.content_hash incoming_ms existing

-- What a decision says of the candidates, `m` the instant of the incoming message.
abbrev pub IsSighting : (Text → Option ℕ) → Text → ℕ → DedupCandidate → Type 0
IsSighting date_parse hash m c =
    (c.content_hash ≡ hash)
    × ((e : ℕ) × (date_parse c.created_at ≡ some e) × (e ≤ m) × (m ≤ e + dedup_window_ms))

abbrev pub IsDecision :
    (Text → Option ℕ) → DedupCandidate → List DedupCandidate → ℕ → DedupDecision → Type 0
IsDecision date_parse incoming existing m store =
    All (λ c. ¬ IsSighting date_parse incoming.content_hash m c) existing
IsDecision date_parse incoming existing m (suppress c) =
    In c existing × IsSighting date_parse incoming.content_hash m c

module _ (date_parse : Text → Option ℕ) (hash : Text) (m : ℕ) where
  dedup_loop-suppress :
      (existing : List DedupCandidate) (c : DedupCandidate)
      → dedup_loop date_parse hash m existing ≡ returns (suppress c)
      → In c existing × IsSighting date_parse hash m c
  unfolding dedup_loop parse_timestamp_ms_or_throw
  dedup_loop-suppress [] c h = absurd (ground arith)
  dedup_loop-suppress (x ∷ xs) c h = elim (Bool-cases (x.content_hash == hash)) [
    | inl same ↦ elim (Option-cases (date_parse x.created_at)) [
      | inl nan ↦ absurd (ground arith)
      | inr (e, parsed) ↦ elim (Bool-cases (in_window m e)) [
        | inl inside ↦
            let same_c : c ≡ x = ground arith in
            (
              inl same_c,
              rw same_c
                  ((==_iff x.content_hash hash).0 same, (e, parsed, ground arith, ground arith)),
            )
        | inr outside ↦
            let (there, sighted) = dedup_loop-suppress xs c (ground arith) in (inr there, sighted)
      ]
    ]
    | inr differs ↦
        let (there, sighted) = dedup_loop-suppress xs c (ground arith) in (inr there, sighted)
  ]

  dedup_loop-store :
      (existing : List DedupCandidate)
      → dedup_loop date_parse hash m existing ≡ returns store
      → All (λ c. ¬ IsSighting date_parse hash m c) existing
  unfolding dedup_loop parse_timestamp_ms_or_throw
  dedup_loop-store [] h = tt
  dedup_loop-store (x ∷ xs) h = elim (Bool-cases (x.content_hash == hash)) [
    | inl same ↦ elim (Option-cases (date_parse x.created_at)) [
      | inl nan ↦ absurd (ground arith)
      | inr (e, parsed) ↦
          (λ (_, (e', parsed', low, high)). ground arith, dedup_loop-store xs (ground arith))
    ]
    | inr differs ↦
        (λ (eq, _). ground (arith, ==_iff x.content_hash hash), dedup_loop-store xs (ground arith))
  ]

  dedup_loop_total :
      (existing : List DedupCandidate)
      → All (λ c. date_parse c.created_at ≢ none) existing
      → (d : DedupDecision) × (dedup_loop date_parse hash m existing ≡ returns d)
  unfolding dedup_loop parse_timestamp_ms_or_throw
  dedup_loop_total [] k = (store, refl)
  dedup_loop_total (x ∷ xs) (number, k) =
      let (d, later) = dedup_loop_total xs k in
      elim (Bool-cases (x.content_hash == hash)) [
        | inl same ↦ elim (Option-cases (date_parse x.created_at)) [
          | inl nan ↦ absurd (number nan)
          | inr (e, parsed) ↦ elim (Bool-cases (in_window m e)) [
            | inl inside ↦ (suppress x, ground arith)
            | inr outside ↦ (d, ground arith)
          ]
        ]
        | inr differs ↦ (d, ground arith)
      ]

-- When the decision is made, at the instant of the incoming message: `suppress` names a candidate
-- with the same hash seen at most ten minutes before and not after; `store` means there is none.
pub decide_dedup-IsDecision :
    (date_parse : Text → Option ℕ) (incoming : DedupCandidate) (existing : List DedupCandidate)
    (decision : DedupDecision)
    → decide_dedup date_parse incoming existing ≡ returns decision
    → (m : ℕ) × (date_parse incoming.created_at ≡ some m)
      × IsDecision date_parse incoming existing m decision
unfolding decide_dedup
decide_dedup-IsDecision date_parse incoming existing decision h =
    elim (Option-cases (date_parse incoming.created_at)) [
      | inl nan ↦ absurd (ground arith)
      | inr (m, parsed) ↦ (m, parsed, decided m decision (rw (parsed, ms_or_throw) at h))
    ]
  where
    decided :
        (m : ℕ) (d : DedupDecision)
        → dedup_loop date_parse incoming.content_hash m existing ≡ returns d
        → IsDecision date_parse incoming existing m d
    decided m store e = dedup_loop-store date_parse incoming.content_hash m existing e
    decided m (suppress c) e = dedup_loop-suppress date_parse incoming.content_hash m existing c e

-- The decision is made whenever every timestamp is one: no exception is thrown.
pub decide_dedup_total :
    (date_parse : Text → Option ℕ) (incoming : DedupCandidate) (existing : List DedupCandidate)
    → date_parse incoming.created_at ≢ none
    → All (λ c. date_parse c.created_at ≢ none) existing
    → (decision : DedupDecision) × (decide_dedup date_parse incoming existing ≡ returns decision)
unfolding decide_dedup
decide_dedup_total date_parse incoming existing h k =
    elim (Option-cases (date_parse incoming.created_at)) [
      | inl nan ↦ absurd (h nan)
      | inr (m, parsed) ↦
          let (d, e) = dedup_loop_total date_parse incoming.content_hash m existing k in
          (d, rw (parsed, ms_or_throw) e)
    ]
