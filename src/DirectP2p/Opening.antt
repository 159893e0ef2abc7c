-- ===== src/DirectP2p/Opening.antt =====
-- The opening tag of a stream that is read, in
-- src/xmpp_p2p_chat/connection_service/transports/direct_p2p.py.
use Prim.Native.String.{[], ◌∷◌}
use serverless_xmpp.Base.{
  ap, ℕ, ◌+◌, ◌≤◌, String, true, ◌≡◌, refl, arith, some, List, text_length, ◌⧺◌, All, inl, inr,
  Bool-cases, Option-cases, ltb, ◌&&◌, truthy, starts_with,
}
use serverless_xmpp.DirectP2p.{split_at}
use serverless_xmpp.DirectP2p.Framing.{split_at-parts, text_length-append}
use serverless_xmpp.DirectP2p.Reading.{opening_in, read_stream_open}

nonempty : (tail : String) → starts_with tail ">" ≡ true → 1 ≤ text_length tail
unfolding starts_with text_length
nonempty [] h = absurd (cc h)
nonempty (c ∷ s) h = omega arith

opening_in-length :
    (text header : String) → opening_in text ≡ some header → text_length header ≤ text_length text
opening_in-length text header h = elim (Option-cases (split_at "<stream:stream" text)) [
  | inl e ↦ absurd (unfold opening_in in ground arith)
  | inr ((before, from_start), e) ↦ elim (Option-cases (split_at ">" from_start)) [
    | inl f ↦ absurd (unfold opening_in in ground arith)
    | inr ((inside, tail), f) ↦
        let outer = split_at-parts "<stream:stream" text before from_start e in
        let (parts, starts) = split_at-parts ">" from_start inside tail f in
        let is_header : header ≡ before ⧺ inside ⧺ ">" = unfold opening_in in ground arith in
        let one : text_length ">" ≡ 1 = unfold text_length in refl in
        omega (
          arith,
          nonempty tail starts,
          one,
          ap text_length is_header,
          ap text_length outer.0,
          ap text_length parts,
          text_length-append before (inside ⧺ ">"),
          text_length-append inside ">",
          text_length-append before from_start,
          text_length-append inside tail,
        )
  ]
]

-- However long the peer's chunks go on, what is read of an opening is no longer than the limit and
-- one chunk.
pub read_stream_open_bounds :
    (limit size : ℕ) (text : String) (chunks : List String)
    → All (λ chunk. text_length chunk ≤ size) chunks
    → text_length text ≤ limit + size
    → text_length (read_stream_open limit text chunks) ≤ limit + size
unfolding read_stream_open
read_stream_open_bounds limit size text List.[] h n = n
read_stream_open_bounds limit size text (List.◌∷◌ chunk chunks) h n =
    elim (Bool-cases (ltb (text_length text) limit && truthy chunk)) [
      | inr e ↦ rw (read_stream_open, e) n
      | inl e ↦
          let joined : text_length (text ⧺ chunk) ≤ limit + size =
            ground (arith, text_length-append text chunk, h.0) in
          elim (Option-cases (opening_in (text ⧺ chunk))) [
            | inl f ↦
                rw (read_stream_open, e, f)
                  (read_stream_open_bounds limit size (text ⧺ chunk) chunks h.1 joined)
            | inr (header, f) ↦
                rw (read_stream_open, e, f)
                  (omega (arith, opening_in-length (text ⧺ chunk) header f, joined))
          ]
    ]
