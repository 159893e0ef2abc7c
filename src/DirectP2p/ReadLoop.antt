-- ===== src/DirectP2p/ReadLoop.antt =====
-- The loops that read from a peer, in
-- src/xmpp_p2p_chat/connection_service/transports/direct_p2p.py: what they take, and that they end.
use serverless_xmpp.Base.{
  ℕ, zero, suc, ◌<◌, String, ◌≡◌, ◌⊎◌, refl, ap, arith, Option, none, some, List, text_length, ◌⧺◌,
  inl, inr, Bool-cases, ltb, Option-cases,
}
use serverless_xmpp.DirectP2p.{split_at, extract_stanza, extract_tags, cut_stanza, utf8_length}
use serverless_xmpp.DirectP2p.Framing.{IsExtracted, extract_stanza-IsExtracted}
use serverless_xmpp.DirectP2p.Reading.{take_stanzas, inner_loop}

-- Each stanza is a stretch of the buffer that the ones before it have left.
pub IsTakenFrom : List String → String → Type 0
IsTakenFrom List.[] buffer = Unit
IsTakenFrom (List.◌∷◌ stanza stanzas) buffer =
    (rest : String) × IsExtracted buffer stanza rest × IsTakenFrom stanzas rest

cut_stanza-none :
    (tag buffer from_start rest : String)
    → cut_stanza tag buffer from_start ≡ (none, rest)
    → rest ≡ buffer
unfolding cut_stanza
cut_stanza-none tag buffer from_start rest h =
    elim (Option-cases (split_at ("</" ⧺ tag ⧺ ">") from_start)) [
      | inl e ↦ ground arith
      | inr (found, e) ↦ absurd (ground arith)
    ]

extract_tags-none :
    (tags : List String) (buffer rest : String)
    → extract_tags tags buffer ≡ (none, rest)
    → (rest ≡ "") ⊎ (rest ≡ buffer)
unfolding extract_tags
extract_tags-none List.[] buffer rest h = elim (Bool-cases (ltb 65536 (utf8_length buffer))) [
  | inl e ↦ inl (ground arith)
  | inr e ↦ inr (ground arith)
]
extract_tags-none (List.◌∷◌ tag tags) buffer rest h =
    elim (Option-cases (split_at ("<" ⧺ tag) buffer)) [
      | inl e ↦ extract_tags-none tags buffer rest (ground arith)
      | inr (found, e) ↦ inr (cut_stanza-none tag buffer found.1 rest (ground arith))
    ]

-- What is left when no stanza is found has none.
extract_stanza-rest :
    (buffer rest : String)
    → extract_stanza buffer ≡ (none, rest)
    → extract_stanza rest ≡ (none, rest)
extract_stanza-rest buffer rest h =
    elim (extract_tags-none (List.◌∷◌ "message" (List.◌∷◌ "presence" (List.◌∷◌ "iq" List.[])))
      buffer rest (unfold extract_stanza in h)) [
        | inl e ↦ rw e (unfold extract_stanza extract_tags split_at utf8_length in refl)
        | inr e ↦ cc (e, h)
      ]

-- The first tag that has begun in a text has no end there: where a message has begun it is that, where
-- none has, a presence, and where neither has, an `iq`.
pub record IsUnfinished (rest : String) : Type 0 where
  pub message :
      (e : String × String) → split_at "<message" rest ≡ some e → split_at "</message>" e.1 ≡ none
  pub presence :
      (e : String × String)
      → split_at "<message" rest ≡ none
      → split_at "<presence" rest ≡ some e
      → split_at "</presence>" e.1 ≡ none
  pub iq :
      (e : String × String)
      → split_at "<message" rest ≡ none
      → split_at "<presence" rest ≡ none
      → split_at "<iq" rest ≡ some e
      → split_at "</iq>" e.1 ≡ none

cut_stanza-unfinished :
    (tag buffer from_start : String)
    → (cut_stanza tag buffer from_start).0 ≡ none
    → split_at ("</" ⧺ tag ⧺ ">") from_start ≡ none
unfolding cut_stanza
cut_stanza-unfinished tag buffer from_start h =
    elim (Option-cases (split_at ("</" ⧺ tag ⧺ ">") from_start)) [
      | inl e ↦ e
      | inr (found, e) ↦ absurd (ground (arith, e, h))
    ]

extract_stanza-IsUnfinished : (rest : String) → (extract_stanza rest).0 ≡ none → IsUnfinished rest
unfolding extract_stanza extract_tags
extract_stanza-IsUnfinished rest h = record {
  message = λ e m. cut_stanza-unfinished "message" rest e.1 (ground (arith, h, m));
  presence = λ e m q. cut_stanza-unfinished "presence" rest e.1 (ground (arith, h, m, q));
  iq = λ e m q i. cut_stanza-unfinished "iq" rest e.1 (ground (arith, h, m, q, i));
}

pub record IsDrained (taken : List String × String) (buffer : String) : Type 0 where
  pub stretches : IsTakenFrom taken.0 buffer
  pub nothing_left : IsUnfinished taken.1

-- `extract_stanza`, where the first part of its result is known
pair_of :
    (buffer : String) (found : Option String)
    → (extract_stanza buffer).0 ≡ found
    → extract_stanza buffer ≡ (found, (extract_stanza buffer).1)
pair_of buffer found e = ap (λ o. (o, (extract_stanza buffer).1)) e

take_stanzas_lem :
    (fuel : ℕ) (buffer : String)
    → text_length buffer < fuel
    → IsDrained (take_stanzas fuel buffer) buffer
unfolding take_stanzas IsTakenFrom
take_stanzas_lem zero buffer n = absurd (omega arith)
take_stanzas_lem (suc fuel) buffer n = elim (Option-cases (extract_stanza buffer).0) [
  | inl e ↦
      let rest = (extract_stanza buffer).1 in
      let left = extract_stanza-rest buffer rest (pair_of buffer none e) in
      rw (take_stanzas, e)
        (record {
          stretches = tt;
          nothing_left = extract_stanza-IsUnfinished rest (ap (λ x. x.0) left);
        })
  | inr (stanza, e) ↦
      let rest = (extract_stanza buffer).1 in
      let cut = extract_stanza-IsExtracted buffer stanza rest (pair_of buffer (some stanza) e) in
      let more = take_stanzas_lem fuel rest (omega (arith, cut.shorter, n)) in
      rw (take_stanzas, e)
        (record { stretches = (rest, cut, more.stretches); nothing_left = more.nothing_left })
]

take_stanzas_same :
    (fuel other : ℕ) (buffer : String)
    → text_length buffer < fuel
    → text_length buffer < other
    → take_stanzas fuel buffer ≡ take_stanzas other buffer
unfolding take_stanzas
take_stanzas_same zero other buffer n m = absurd (omega arith)
take_stanzas_same (suc fuel) zero buffer n m = absurd (omega arith)
take_stanzas_same (suc fuel) (suc other) buffer n m =
    elim (Option-cases (extract_stanza buffer).0) [
      | inl e ↦ rw (take_stanzas, e) refl
      | inr (stanza, e) ↦
          let rest = (extract_stanza buffer).1 in
          let cut =
            extract_stanza-IsExtracted buffer stanza rest (pair_of buffer (some stanza) e) in
          let same =
            take_stanzas_same fuel other rest (omega (arith, cut.shorter, n))
              (omega (arith, cut.shorter, m)) in
          rw (take_stanzas, e) (ap (λ more. (List.◌∷◌ stanza more.0, more.1)) same)
    ]

-- The inner loop ends: with any fuel above the length of the buffer it gives the same result. What it
-- takes are stretches of the buffer, one after the other. In what it leaves, the first tag that has
-- begun has no end: a message if one has begun, else a presence, else an `iq`.
pub inner_loop-IsDrained :
    (fuel : ℕ) (buffer : String)
    → text_length buffer < fuel
    → (take_stanzas fuel buffer ≡ inner_loop buffer) × IsDrained (inner_loop buffer) buffer
unfolding inner_loop
inner_loop-IsDrained fuel buffer n = (
  take_stanzas_same fuel (suc (text_length buffer)) buffer n (omega arith),
  take_stanzas_lem (suc (text_length buffer)) buffer (omega arith),
)
