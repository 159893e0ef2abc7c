-- ===== src/XmppStream/Header.antt =====
-- The stream header of src/xmpp_p2p_chat/connection_service/transports/xmpp_stream.py: what
-- `extract_stream_jids` reads out of what `stream_open` writes.
use Prim.Native.String.{[], ◌∷◌}
use mathlib.Core.Path.{ap₂}
use serverless_xmpp.Base.{
  String, Bool, true, false, ◌||◌, ◌≡◌, refl, ◌∙◌, arith, truthy, ◌⧺◌, has_char, none, some,
}
use serverless_xmpp.XmppStream.{
  stream_open, quoted_group, match_attribute, search_attribute, or_empty, extract_stream_jids,
}

-- A JID that a header can carry: not empty, and with neither kind of quote.
pub record IsPlain (s : String) : Type 0 where
  pub nonempty : truthy s ≡ true
  pub no_apostrophe : has_char b'\'' s ≡ false
  pub no_quote : has_char b'"' s ≡ false

quoted_group-append :
    (b : Bool) (s t : String)
    → (b || truthy s) ≡ true
    → has_char b'\'' s ≡ false
    → has_char b'"' s ≡ false
    → quoted_group b (s ⧺ ("'" ⧺ t)) ≡ some s
unfolding quoted_group has_char
quoted_group-append true [] t n h k = refl
quoted_group-append false [] t n h k = absurd (cc n)
quoted_group-append b (c ∷ s) t n h k = ground (arith, quoted_group-append true s t refl)

-- An attribute's name with its `=` is not found where there is no `=` before the next quote.
no_match :
    (name s t : String)
    → has_char b'=' name ≡ true
    → has_char b'\'' name ≡ false
    → has_char b'=' s ≡ false
    → match_attribute name (s ⧺ ("'" ⧺ t)) ≡ none
unfolding match_attribute has_char
no_match [] s t n m h = absurd (cc n)
no_match (x ∷ name) [] t n m h = ground arith
no_match (x ∷ name) (c ∷ s) t n m h = ground (arith, no_match name s t)

search_past :
    (name s t : String)
    → has_char b'=' name ≡ true
    → has_char b'\'' name ≡ false
    → has_char b'=' s ≡ false
    → search_attribute name (s ⧺ ("'" ⧺ t)) ≡ search_attribute name t
unfolding search_attribute
search_past name [] t n m h = rw (no_match name [] t n m h, search_attribute)
search_past name (c ∷ s) t n m h =
    rw (no_match name (c ∷ s) t n m h, search_attribute)
      (search_past name s t n m (unfold has_char in ground arith))

search_from :
    (l t : String) → IsPlain l → search_attribute "from=" ("from='" ⧺ l ⧺ ("'" ⧺ t)) ≡ some l
unfolding search_attribute match_attribute
search_from l t h =
    rw
      (
        quoted_group-append false l t h.nonempty h.no_apostrophe h.no_quote,
        search_attribute,
        match_attribute,
      )
      refl

search_to : (r t : String) → IsPlain r → search_attribute "to=" (" to='" ⧺ r ⧺ ("'" ⧺ t)) ≡ some r
unfolding search_attribute match_attribute
search_to r t h =
    rw
      (
        quoted_group-append false r t h.nonempty h.no_apostrophe h.no_quote,
        search_attribute,
        match_attribute,
      )
      refl

-- A peer reads both JIDs out of the header that was written for it, if they have no quotes and the
-- first of them no `=`.
pub extract_stream_jids-stream_open :
    (local_jid remote_jid : String)
    → IsPlain local_jid
    → IsPlain remote_jid
    → has_char b'=' local_jid ≡ false
    → extract_stream_jids (stream_open local_jid remote_jid) ≡ (local_jid, remote_jid)
unfolding extract_stream_jids stream_open
extract_stream_jids-stream_open l r hl hr no_eq =
    ap₂ (λ a b. (or_empty a, or_empty b))
      (search_from l (" to='" ⧺ r ⧺ ("'" ⧺ " version='1.0'>")) hl)
      (search_past "to=" l (" to='" ⧺ r ⧺ ("'" ⧺ " version='1.0'>")) (unfold has_char in refl)
          (unfold has_char in refl) no_eq
        ∙ search_to r " version='1.0'>" hr)
