-- ===== src/Orchestration/ModelAudit/Response/Accepts.antt =====
-- Which answers are accepted.
use onetrackmind.Orchestration.ModelAudit.Response.Fence.{IsUnfenced, cleaned_iff}
use onetrackmind.Common.{
  ℕ, [], ◌∷◌, Option, none, some, Text, text, text_eq, text_eq_iff, ◌≡◌, ◌⊎◌, ◌↔◌, refl, sym, ap,
  ◌∙◌, inl, inr, Option-cases, Bool-cases,
}
use onetrackmind.Common.Results.{returns, ◌>>=◌, bind-returns, returns-inj}
use onetrackmind.Db.Serializers.{Json, obj, Members, JsonCodec, Parsed, value, syntax_error}
use onetrackmind.Orchestration.Narrowing.{extract_string, to_record}
use onetrackmind.Orchestration.Session.Log.Written.{record_shape}
use onetrackmind.Orchestration.ModelAudit.Response.{
  AuditResult, pass, flag, revise, ModelAuditResult, audit_result_text, valid_result, cleaned,
  filled, required_member, checked_members, audit_of, parse_audit_response,
}

-- A result other than 'pass' explains itself.
abbrev IsExplained : AuditResult → Option Text → Option Text → Type 0
IsExplained result issue correction =
    (result ≡ pass) ⊎ ((i : Text) × (c : Text) × (issue ≡ some i) × (correction ≡ some c))

valid_result-audit_result_text :
    (r : AuditResult) → valid_result (some (audit_result_text r)) ≡ some r
unfolding valid_result text_eq text
valid_result-audit_result_text pass = refl
valid_result-audit_result_text flag = refl
valid_result-audit_result_text revise = refl

valid_result-inv :
    (t : Option Text) (r : AuditResult) → valid_result t ≡ some r → t ≡ some (audit_result_text r)
unfolding valid_result
valid_result-inv none r h = absurd (cc h)
valid_result-inv (some s) r h = elim (Bool-cases (text_eq s (text "pass"))) [
  | inl is_pass ↦ cc (rw (valid_result, is_pass) at h, (text_eq_iff s (text "pass")).0 is_pass)
  | inr not_pass ↦ elim (Bool-cases (text_eq s (text "flag"))) [
    | inl is_flag ↦
        cc (rw (valid_result, not_pass, is_flag) at h, (text_eq_iff s (text "flag")).0 is_flag)
    | inr not_flag ↦ elim (Bool-cases (text_eq s (text "revise"))) [
      | inl is_revise ↦ cc (
        rw (valid_result, not_pass, not_flag, is_revise) at h,
        (text_eq_iff s (text "revise")).0 is_revise,
      )
      | inr not_revise ↦ absurd (cc (rw (valid_result, not_pass, not_flag, not_revise) at h))
    ]
  ]
]

required_members_iff :
    (r : AuditResult) (issue correction : Option Text)
    → ((required_member r (text "issue") issue >>= λ _.
          required_member r (text "correction") correction)
        ≡ returns tt)
      ↔ ((i : Text) × (c : Text) × (issue ≡ some i) × (correction ≡ some c))
required_members_iff r (some i) (some c) = (λ h. (i, c, refl, refl), λ h. refl)
required_members_iff r (some i) none = (λ h. absurd (cc h), λ (_, c, _, e). absurd (cc e))
required_members_iff r none correction = (λ h. absurd (cc h), λ (i, _, e, _). absurd (cc e))

checked_members_iff :
    (r : AuditResult) (issue correction : Option Text)
    → (checked_members r issue correction ≡ returns tt) ↔ IsExplained r issue correction
unfolding checked_members
checked_members_iff pass issue correction = (λ h. inl refl, λ h. refl)
checked_members_iff flag issue correction =
    let (there, back) = required_members_iff flag issue correction in
    (λ h. inr (there h), λ h. elim h [ inl e ↦ absurd (cc e) | inr e ↦ back e ])
checked_members_iff revise issue correction =
    let (there, back) = required_members_iff revise issue correction in
    (λ h. inr (there h), λ h. elim h [ inl e ↦ absurd (cc e) | inr e ↦ back e ])

-- A member that is a text with some character is kept, and any other one left out.
abbrev IsKeptMember : (member kept : Option Text) → Type 0
IsKeptMember member kept =
    ((c : ℕ) × (s : Text) × (member ≡ some (c ∷ s)) × (kept ≡ some (c ∷ s)))
    ⊎ (((member ≡ none) ⊎ (member ≡ some [])) × (kept ≡ none))

filled_iff : (member kept : Option Text) → (kept ≡ filled member) ↔ IsKeptMember member kept
filled_iff none kept =
    (λ h. inr (inl refl, h), λ h. elim h [ inl (_, _, e, _) ↦ absurd (cc e) | inr (_, e) ↦ e ])
filled_iff (some []) kept =
    (λ h. inr (inr refl, h), λ h. elim h [ inl (_, _, e, _) ↦ absurd (cc e) | inr (_, e) ↦ e ])
filled_iff (some (c ∷ s)) kept = (
  λ h. inl (c, s, refl, h),
  λ h. elim h [
    | inl (_, _, e, k) ↦ k ∙ sym e
    | inr (odd, _) ↦ elim odd [ inl e ↦ absurd (cc e) | inr e ↦ absurd (cc e) ]
  ],
)

-- The answer's members give the audit's result, and a reason where it is not 'pass'.
abbrev pub IsAudit : Members → ModelAuditResult → Type 0
IsAudit ms r =
    (extract_string ms (text "result") ≡ some (audit_result_text r.result))
    × IsKeptMember (extract_string ms (text "issue")) r.issue
    × IsKeptMember (extract_string ms (text "correction")) r.correction
    × IsExplained r.result r.issue r.correction

module _ (shown : Option Json → Text) where
  audit_of_sound :
      (ms : Members) (r : ModelAuditResult) → audit_of shown ms ≡ returns r → IsAudit ms r
  unfolding audit_of
  audit_of_sound ms r h = elim (Option-cases (valid_result (extract_string ms (text "result")))) [
    | inl unknown ↦ absurd (cc (rw (audit_of, unknown) at h))
    | inr (result, known) ↦
        let (_, complete, same) =
          bind-returns
            (checked_members result (filled (extract_string ms (text "issue")))
              (filled (extract_string ms (text "correction"))))
            (λ _. returns _) r (rw (audit_of, known) at h) in
        let explained = (checked_members_iff result _ _).0 complete in
        rw (← returns-inj same) (
          valid_result-inv _ result known,
          (filled_iff _ _).0 refl,
          (filled_iff _ _).0 refl,
          explained,
        )
  ]

  audit_of_complete :
      (ms : Members) (r : ModelAuditResult) → IsAudit ms r → audit_of shown ms ≡ returns r
  unfolding audit_of
  audit_of_complete ms r (said, issue, correction, explained) = rw (
    audit_of,
    said,
    valid_result-audit_result_text r.result,
    ← (filled_iff _ _).1 issue,
    ← (filled_iff _ _).1 correction,
    (checked_members_iff r.result r.issue r.correction).1 explained,
  )

  -- A text is accepted as an audit exactly when, without the white space around it and its fence, it
  -- is a JSON object whose `result` is that of the audit; the audit has an issue and a correction just
  -- where those members are texts with some character, and both of them where the result is not
  -- 'pass'.
  pub parse_audit_response_iff :
      (codec : JsonCodec) (raw : Text) (r : ModelAuditResult)
      → (parse_audit_response shown codec raw ≡ returns r) ↔ (
          (body : Text) × (ms : Members) × IsUnfenced raw body
          × (codec.parse body ≡ value (obj ms))
          × IsAudit ms r)
  unfolding parse_audit_response to_record
  parse_audit_response_iff codec raw r = (
    λ h. accepted (codec.parse (cleaned raw)) refl h,
    λ (body, ms, unfenced, parsed, holds).
        let same = (cleaned_iff raw body).1 unfenced in
        let at : codec.parse (cleaned raw) ≡ value (obj ms) =
          ap (λ t. codec.parse t) same ∙ parsed in
        rw (parse_audit_response, at) (audit_of_complete ms r holds),
  )
    where
      accepted :
          (p : Parsed)
          → codec.parse (cleaned raw) ≡ p
          → parse_audit_response shown codec raw ≡ returns r
          → (body : Text) × (ms : Members) × IsUnfenced raw body
            × (codec.parse body ≡ value (obj ms))
            × IsAudit ms r
      accepted (syntax_error m) parsed h = absurd (cc (rw (parse_audit_response, parsed) at h))
      accepted (value v) parsed h = elim (Option-cases (to_record v)) [
        | inl shapeless ↦ absurd (cc (rw (parse_audit_response, parsed, shapeless) at h))
        | inr (ms, shaped) ↦ (
          cleaned raw,
          ms,
          (cleaned_iff raw (cleaned raw)).0 refl,
          parsed ∙ ap (λ x. value x) (record_shape v ms shaped),
          audit_of_sound ms r (rw (parse_audit_response, parsed, shaped) at h),
        )
      ]
