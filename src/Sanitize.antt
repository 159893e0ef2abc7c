-- ===== src/Sanitize.antt =====
-- src/xmpp_p2p_chat/common/sanitize.py: control characters out of a message, and its length capped.
use Prim.Native.String.{[], ◌∷◌}
use serverless_xmpp.Base.{
  sym, ℕ, zero, suc, ◌≤◌, String, Char, code, Bool, false, ◌&&◌, ◌||◌, ◌≡◌, refl, ap, inl, inr,
  arith, eqb, leb, ltb, if◌then◌else◌, Bool-cases, text_length, text_take,
}

-- `[\x00-\x08\x0b\x0c\x0e-\x1f\x7f]`
unfoldable pub is_control : Char → Bool
is_control c =
    let n = code c in
    leb n 0x08 || eqb n 0x0b || eqb n 0x0c || (leb 0x0e n && leb n 0x1f) || eqb n 0x7f

-- `_CONTROL_CHARS.sub("", text)`
unfoldable pub strip_controls : String → String
strip_controls [] = []
strip_controls (c ∷ s) = let rest = strip_controls s in if is_control c then rest else c ∷ rest

unfoldable pub sanitize_message_body : String → ℕ → String
unfolding strip_controls is_control
sanitize_message_body text max_length =
    let cleaned = strip_controls text in
    if ltb max_length (text_length cleaned) then text_take max_length cleaned else cleaned

-- No character is one that is taken out.
abbrev pub HasNoControls : String → Type 0
HasNoControls [] = Unit
HasNoControls (c ∷ s) = (is_control c ≡ false) × HasNoControls s

strip_controls-HasNoControls : (s : String) → HasNoControls (strip_controls s)
unfolding strip_controls
strip_controls-HasNoControls [] = tt
strip_controls-HasNoControls (c ∷ s) = elim (Bool-cases (is_control c)) [
  | inl e ↦ rw e (strip_controls-HasNoControls s)
  | inr e ↦ rw e (e, strip_controls-HasNoControls s)
]

strip_controls_id : (s : String) → HasNoControls s → strip_controls s ≡ s
unfolding strip_controls
strip_controls_id [] h = refl
strip_controls_id (c ∷ s) h = rw (h.0, strip_controls_id s h.1) refl

text_take-HasNoControls : (n : ℕ) (s : String) → HasNoControls s → HasNoControls (text_take n s)
unfolding text_take
text_take-HasNoControls zero s h = tt
text_take-HasNoControls (suc n) [] h = tt
text_take-HasNoControls (suc n) (c ∷ s) h = (h.0, text_take-HasNoControls n s h.1)

text_take_all : (n : ℕ) (s : String) → text_length s ≤ n → text_take n s ≡ s
unfolding text_take text_length
text_take_all zero [] h = refl
text_take_all zero (c ∷ s) h = absurd (omega arith)
text_take_all (suc n) [] h = refl
text_take_all (suc n) (c ∷ s) h = ap (◌∷◌ c) (text_take_all n s (omega arith))

text_length-text_take-le : (n : ℕ) (s : String) → text_length (text_take n s) ≤ n
unfolding text_take text_length
text_length-text_take-le zero s = omega arith
text_length-text_take-le (suc n) [] = omega arith
text_length-text_take-le (suc n) (c ∷ s) = omega (arith, text_length-text_take-le n s)

-- The cap is a cut at `max_length`, whether or not it is reached.
sanitize-eq-take :
    (text : String) (n : ℕ) → sanitize_message_body text n ≡ text_take n (strip_controls text)
unfolding sanitize_message_body
sanitize-eq-take text n = elim (Bool-cases (ltb n (text_length (strip_controls text)))) [
  | inl e ↦ rw e refl
  | inr e ↦ rw e (sym (text_take_all n (strip_controls text) (ground arith)))
]

-- A sanitised text has no control character and at most `max_length` characters.
pub sanitize_message_body_bounds :
    (text : String) (n : ℕ)
    → HasNoControls (sanitize_message_body text n)
      × (text_length (sanitize_message_body text n) ≤ n)
sanitize_message_body_bounds text n = rw (sanitize-eq-take text n) (
  text_take-HasNoControls n (strip_controls text) (strip_controls-HasNoControls text),
  text_length-text_take-le n (strip_controls text),
)

-- A text that has no control character and fits is left as it is.
pub sanitize_message_body_id :
    (text : String) (n : ℕ)
    → HasNoControls text
    → text_length text ≤ n
    → sanitize_message_body text n ≡ text
sanitize_message_body_id text n h fits =
    rw (sanitize-eq-take text n, strip_controls_id text h) (text_take_all n text fits)

-- A second pass changes nothing.
pub sanitize_message_body_idem :
    (text : String) (n : ℕ)
    → sanitize_message_body (sanitize_message_body text n) n ≡ sanitize_message_body text n
sanitize_message_body_idem text n =
    let (clean, fits) = sanitize_message_body_bounds text n in
    sanitize_message_body_id (sanitize_message_body text n) n clean fits
