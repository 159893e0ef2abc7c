-- ===== src/XmppStream/Escape.antt =====
-- `_escape_xml` of src/xmpp_p2p_chat/connection_service/transports/xmpp_stream.py, against the way
-- an XML reader resolves the predefined entities.
use Prim.Native.String.{[], ◌∷◌}
use mathlib.Core.Path.{subst}
use text.Mathlib.TextEquality.{Char-path}
use serverless_xmpp.Base.{
  Option, none, some, ◌==◌, ℕ, String, Char, code, Bool, true, false, not, ◌&&◌, ◌||◌, leb, ◌≡◌,
  refl, ap, sym, ◌∙◌, inl, inr, arith, eqb, if◌then◌else◌, Bool-cases, ◌⧺◌, has_char,
  has_char-append,
}
use serverless_xmpp.XmppStream.{replace_char, escape_xml}

-- The escape of one character, in one pass.
unfoldable pub escape_char : Char → String
escape_char c =
    if eqb (code c) b'&'
    then "&amp;"
    else if eqb (code c) b'<'
    then "&lt;"
    else if eqb (code c) b'>'
    then "&gt;"
    else if eqb (code c) b'\''
    then "&apos;"
    else if eqb (code c) b'"'
    then "&quot;"
    else c ∷ []

-- One character is escaped by itself: no replacement touches what an earlier one has put in.
pub escape_xml-cons : (c : Char) (s : String) → escape_xml (c ∷ s) ≡ escape_char c ⧺ escape_xml s
unfolding escape_xml replace_char escape_char
escape_xml-cons c s = elim (Bool-cases (eqb (code c) b'&')) [
  | inl e ↦ rw e refl
  | inr e ↦ elim (Bool-cases (eqb (code c) b'<')) [
    | inl f ↦ rw (e, f) refl
    | inr f ↦ elim (Bool-cases (eqb (code c) b'>')) [
      | inl g ↦ rw (e, f, g) refl
      | inr g ↦ elim (Bool-cases (eqb (code c) b'\'')) [
        | inl h ↦ rw (e, f, g, h) refl
        | inr h ↦ elim (Bool-cases (eqb (code c) b'"')) [
          | inl i ↦ rw (e, f, g, h, i) refl
          | inr i ↦ rw (e, f, g, h, i) refl
        ]
      ]
    ]
  ]
]

-- The cases of `escape_char`, each with its equation.
data Escaped (c : Char) (s : String) : Type 0 where
  amp : code c ≡ b'&' → s ≡ "&amp;" → Escaped c s
  lt : code c ≡ b'<' → s ≡ "&lt;" → Escaped c s
  gt : code c ≡ b'>' → s ≡ "&gt;" → Escaped c s
  apos : code c ≡ b'\'' → s ≡ "&apos;" → Escaped c s
  quot : code c ≡ b'"' → s ≡ "&quot;" → Escaped c s
  plain :
      eqb (code c) b'&' ≡ false
      → eqb (code c) b'<' ≡ false
      → eqb (code c) b'>' ≡ false
      → eqb (code c) b'\'' ≡ false
      → eqb (code c) b'"' ≡ false
      → s ≡ c ∷ []
      → Escaped c s

eqb-eq : (a b : ℕ) → eqb a b ≡ true → a ≡ b
eqb-eq a b h = ground arith

escape_char-Escaped : (c : Char) → Escaped c (escape_char c)
unfolding escape_char
escape_char-Escaped c = elim (Bool-cases (eqb (code c) b'&')) [
  | inl e ↦ amp (eqb-eq _ _ e) (rw e)
  | inr e ↦ elim (Bool-cases (eqb (code c) b'<')) [
    | inl f ↦ lt (eqb-eq _ _ f) (rw (e, f))
    | inr f ↦ elim (Bool-cases (eqb (code c) b'>')) [
      | inl g ↦ gt (eqb-eq _ _ g) (rw (e, f, g))
      | inr g ↦ elim (Bool-cases (eqb (code c) b'\'')) [
        | inl h ↦ apos (eqb-eq _ _ h) (rw (e, f, g, h))
        | inr h ↦ elim (Bool-cases (eqb (code c) b'"')) [
          | inl i ↦ quot (eqb-eq _ _ i) (rw (e, f, g, h, i))
          | inr i ↦ plain e f g h i (rw (e, f, g, h, i))
        ]
      ]
    ]
  ]
]

-- No angle bracket and no quote.
abbrev pub IsClean : String → Type 0
IsClean s =
    (has_char b'<' s ≡ false)
    × (has_char b'>' s ≡ false)
    × (has_char b'\'' s ≡ false)
    × (has_char b'"' s ≡ false)

Escaped-IsClean : (c : Char) (s : String) → Escaped c s → IsClean s
unfolding has_char
Escaped-IsClean c s (amp _ e) = subst IsClean (sym e) (refl, refl, refl, refl)
Escaped-IsClean c s (lt _ e) = subst IsClean (sym e) (refl, refl, refl, refl)
Escaped-IsClean c s (gt _ e) = subst IsClean (sym e) (refl, refl, refl, refl)
Escaped-IsClean c s (apos _ e) = subst IsClean (sym e) (refl, refl, refl, refl)
Escaped-IsClean c s (quot _ e) = subst IsClean (sym e) (refl, refl, refl, refl)
Escaped-IsClean c s (plain _ f g h i e) = subst IsClean (sym e) (rw f, rw g, rw h, rw i)

IsClean-append : (s t : String) → IsClean s → IsClean t → IsClean (s ⧺ t)
IsClean-append s t h k = (
  rw (has_char-append, h.0, k.0) refl,
  rw (has_char-append, h.1, k.1) refl,
  rw (has_char-append, h.2, k.2) refl,
  rw (has_char-append, h.3, k.3) refl,
)

-- An escaped text has no angle bracket and no quote, so it can end neither the element nor the
-- attribute that it is put into.
pub escape_xml-IsClean : (s : String) → IsClean (escape_xml s)
escape_xml-IsClean [] = unfold escape_xml replace_char has_char in (refl, refl, refl, refl)
escape_xml-IsClean (c ∷ s) = subst IsClean (sym (escape_xml-cons c s)) (
    IsClean-append (escape_char c) (escape_xml s)
      (Escaped-IsClean c (escape_char c) (escape_char-Escaped c)) (escape_xml-IsClean s))

-- The predefined entities of XML.
pub entity : String → Option Char
entity name =
    if name == "amp"
    then some "&"
    else if name == "lt"
    then some "<"
    else if name == "gt"
    then some ">"
    else if name == "apos"
    then some "'"
    else if name == "quot"
    then some "\""
    else none

abbrev prepend : Option Char → Option String → Option String
prepend (some c) (some s) = some (c ∷ s)
prepend none o = none
prepend (some c) none = none

-- The characters that XML has, but for the carriage return, which a reader takes for a line feed.
pub is_text : Char → Bool
is_text c =
    leb 32 (code c) && not (eqb (code c) 0xFFFE) && not (eqb (code c) 0xFFFF)
    || eqb (code c) 9
    || eqb (code c) 10

unfoldable pub all_text : String → Bool
unfolding is_text
all_text [] = true
all_text (c ∷ s) = let rest = all_text s in is_text c && rest

-- How an XML reader takes a run of character data: an entity is one character, and a bracket or a
-- character that XML has not is refused. The first argument is the name of the entity that has begun,
-- if one has.
pub unescape : Option String → String → Option String
unfolding entity
unescape none [] = some []
unescape none (c ∷ s) =
    if eqb (code c) b'&'
    then unescape (some "") s
    else if is_text c && not (eqb (code c) b'<')
    then prepend (some c) (unescape none s)
    else none
unescape (some name) [] = none
unescape (some name) (c ∷ s) =
    if eqb (code c) b';'
    then prepend (entity name) (unescape none s)
    else unescape (some (name ⧺ (c ∷ []))) s

unescape-Escaped :
    (c : Char) (e s : String)
    → is_text c ≡ true
    → Escaped c e
    → unescape none (e ⧺ s) ≡ prepend (some c) (unescape none s)
unfolding unescape
unescape-Escaped c e s t (amp h same) =
    rw same (ap (λ d. prepend (some d) (unescape none s)) (Char-path "&" c (sym h)))
unescape-Escaped c e s t (lt h same) =
    rw same (ap (λ d. prepend (some d) (unescape none s)) (Char-path "<" c (sym h)))
unescape-Escaped c e s t (gt h same) =
    rw same (ap (λ d. prepend (some d) (unescape none s)) (Char-path ">" c (sym h)))
unescape-Escaped c e s t (apos h same) =
    rw same (ap (λ d. prepend (some d) (unescape none s)) (Char-path "'" c (sym h)))
unescape-Escaped c e s t (quot h same) =
    rw same (ap (λ d. prepend (some d) (unescape none s)) (Char-path "\"" c (sym h)))
unescape-Escaped c e s t (plain h l _ _ _ same) = rw (same, h, l, t) refl

-- A text of characters that XML has, with no carriage return, is read back exactly as it was escaped:
-- a reader of character data resolves the entities, and meets nothing that it refuses.
pub unescape-escape_xml : (s : String) → all_text s ≡ true → unescape none (escape_xml s) ≡ some s
unfolding all_text
unescape-escape_xml [] h = unfold unescape escape_xml replace_char in refl
unescape-escape_xml (c ∷ s) h = rw escape_xml-cons (
    unescape-Escaped c (escape_char c) (escape_xml s) (ground (arith, h)) (escape_char-Escaped c)
    ∙ ap (prepend (some c)) (unescape-escape_xml s (ground (arith, h))))
