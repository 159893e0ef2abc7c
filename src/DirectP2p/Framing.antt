-- ===== src/DirectP2p/Framing.antt =====
-- `_extract_stanza` of src/xmpp_p2p_chat/connection_service/transports/direct_p2p.py.
use Prim.Native.String.{[], ◌∷◌}
use mathlib.Core.Path.{subst}
use serverless_xmpp.Base.{
  ◌+◌, ◌<◌, ◌≤◌, String, Char, code, true, ◌≡◌, refl, sym, ap, ◌∙◌, arith, inl, inr, some, none,
  Option, List, Bool-cases, Option-cases, starts_with, text_length, text_drop, ◌⧺◌, ⧺_assoc,
}
use text.Mathlib.TextEquality.{Char-path}
use serverless_xmpp.DirectP2p.{split_at, prepend_to, cut_stanza, extract_tags, extract_stanza}

-- The two parts are the text, and the second begins with the needle.
abbrev IsCut : String → String → Option (String × String) → Type 0
IsCut needle s none = Unit
IsCut needle s (some (before, rest)) = (s ≡ before ⧺ rest) × (starts_with rest needle ≡ true)

prepend_to-IsCut :
    (needle s : String) (c : Char) (o : Option (String × String))
    → IsCut needle s o
    → IsCut needle (c ∷ s) (prepend_to (c ∷ []) o)
prepend_to-IsCut needle s c none h = tt
prepend_to-IsCut needle s c (some (before, rest)) h = (ap (◌∷◌ c) h.0, h.1)

split_at-IsCut : (needle s : String) → IsCut needle s (split_at needle s)
unfolding split_at starts_with
split_at-IsCut [] [] = (refl, refl)
split_at-IsCut (d ∷ needle) [] = tt
split_at-IsCut needle (c ∷ s) = elim (Bool-cases (starts_with (c ∷ s) needle)) [
  | inl here ↦ rw (split_at, here) (refl, here)
  | inr later ↦
      rw (split_at, later)
        (prepend_to-IsCut needle s c (split_at needle s) (split_at-IsCut needle s))
]

pub split_at-parts :
    (needle s before rest : String)
    → split_at needle s ≡ some (before, rest)
    → (s ≡ before ⧺ rest) × (starts_with rest needle ≡ true)
split_at-parts needle s before rest e = subst (IsCut needle s) e (split_at-IsCut needle s)

starts_with-drop :
    (s part : String) → starts_with s part ≡ true → s ≡ part ⧺ text_drop (text_length part) s
unfolding starts_with text_drop text_length
starts_with-drop s [] h = refl
starts_with-drop [] (d ∷ part) h = absurd (cc h)
starts_with-drop (c ∷ s) (d ∷ part) h =
    let same : code c ≡ code d = ground arith in
    let part_starts : starts_with s part ≡ true = ground arith in
    cc (Char-path c d same, starts_with-drop s part part_starts)

pub text_length-append : (s t : String) → text_length (s ⧺ t) ≡ text_length s + text_length t
unfolding text_length
text_length-append [] t = omega arith
text_length-append (c ∷ s) t = omega (arith, text_length-append s t)

-- A text that is cut into what stands before, a stanza that is not empty, and a rest.
pub record IsExtracted (buffer stanza rest : String) : Type 0 where
  pub before : String
  pub whole : buffer ≡ before ⧺ (stanza ⧺ rest)
  pub shorter : text_length rest < text_length buffer

whole-IsExtracted :
    (buffer before stanza rest : String)
    → 1 ≤ text_length stanza
    → buffer ≡ before ⧺ (stanza ⧺ rest)
    → IsExtracted buffer stanza rest
whole-IsExtracted buffer before stanza rest n e = record {
  before = before;
  whole = e;
  shorter = omega (
    arith,
    ap text_length e,
    text_length-append before (stanza ⧺ rest),
    text_length-append stanza rest,
    n,
  );
}

text_length-end_tag : (inside tag : String) → 1 ≤ text_length (inside ⧺ ("</" ⧺ tag ⧺ ">"))
unfolding text_length
text_length-end_tag inside tag = omega (arith, text_length-append inside ("</" ⧺ tag ⧺ ">"))

cut_stanza-found :
    (tag buffer from_start inside tail stanza rest : String)
    → split_at ("</" ⧺ tag ⧺ ">") from_start ≡ some (inside, tail)
    → cut_stanza tag buffer from_start ≡ (some stanza, rest)
    → (stanza ≡ inside ⧺ ("</" ⧺ tag ⧺ ">"))
      × (rest ≡ text_drop (text_length ("</" ⧺ tag ⧺ ">")) tail)
unfolding cut_stanza
cut_stanza-found tag buffer from_start inside tail stanza rest f h = (ground arith, ground arith)

cut_stanza-IsExtracted :
    (tag buffer front from_start stanza rest : String)
    → buffer ≡ front ⧺ from_start
    → cut_stanza tag buffer from_start ≡ (some stanza, rest)
    → IsExtracted buffer stanza rest
cut_stanza-IsExtracted tag buffer front from_start stanza rest e h =
    let end_tag : String = "</" ⧺ tag ⧺ ">" in
    elim (Option-cases (split_at end_tag from_start)) [
      | inl missing ↦ absurd (unfold cut_stanza in ground arith)
      | inr ((inside, tail), f) ↦
          let (parts, starts) = split_at-parts end_tag from_start inside tail f in
          let (is_stanza, is_rest) =
            cut_stanza-found tag buffer from_start inside tail stanza rest f h in
          let tail_parts : tail ≡ end_tag ⧺ rest =
            starts_with-drop tail end_tag starts ∙ ap (◌⧺◌ end_tag) (sym is_rest) in
          let joined : from_start ≡ stanza ⧺ rest =
            parts
            ∙ ap (◌⧺◌ inside) tail_parts
            ∙ sym (⧺_assoc inside end_tag rest)
            ∙ ap (λ x. x ⧺ rest) (sym is_stanza) in
          whole-IsExtracted buffer front stanza rest
            (subst (λ x. 1 ≤ text_length x) (sym is_stanza) (text_length-end_tag inside tag))
            (e ∙ ap (◌⧺◌ front) joined)
    ]

extract_tags-IsExtracted :
    (tags : List String) (buffer stanza rest : String)
    → extract_tags tags buffer ≡ (some stanza, rest)
    → IsExtracted buffer stanza rest
extract_tags-IsExtracted List.[] buffer stanza rest h = absurd (unfold extract_tags in ground arith)
extract_tags-IsExtracted (List.◌∷◌ tag tags) buffer stanza rest h =
    elim (Option-cases (split_at ("<" ⧺ tag) buffer)) [
      | inl missing ↦
          extract_tags-IsExtracted tags buffer stanza rest (unfold extract_tags in ground arith)
      | inr ((front, from_start), f) ↦
          cut_stanza-IsExtracted tag buffer front from_start stanza rest
            (split_at-parts ("<" ⧺ tag) buffer front from_start f).0
            (unfold extract_tags in ground arith)
    ]

-- A stanza that is taken out of the buffer is a stretch of it, and the rest is what follows; the
-- rest is shorter than the buffer, so the loop that takes them out ends.
pub extract_stanza-IsExtracted :
    (buffer stanza rest : String)
    → extract_stanza buffer ≡ (some stanza, rest)
    → IsExtracted buffer stanza rest
unfolding extract_stanza
extract_stanza-IsExtracted buffer stanza rest h =
    extract_tags-IsExtracted (List.◌∷◌ "message" (List.◌∷◌ "presence" (List.◌∷◌ "iq" List.[])))
      buffer stanza rest h
