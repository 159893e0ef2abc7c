-- ===== src/Base/Texts.antt =====
-- Texts: Python's `str` as the native `String`, a sequence of code points.
-- `lower()` and `isspace()` need the Unicode tables, which come as an interface.
use Prim.Native.Nat.{ℕ, zero, suc, compare, Ordering}
use Prim.Native.Char.{Char, code}
use Prim.Native.String.{◌++◌ as append, String, [], ◌∷◌}
use mathlib.Core.Path.{◌≡◌, refl, ap}
use mathlib.Core.Logic.{◌⊎◌, inl, inr}
use mathlib.Core.Bool.{Bool, true, false, ◌&&◌, ◌||◌}
use native.Mathlib.Omega.{arith}
use text.Mathlib.TextEquality.{Char-path}
use text.Mathlib.TextLemmas.{cons-append, nil-append}
use serverless_xmpp.Base.Tests.{leb, if◌then◌else◌, eqb}

-- The parts of the Unicode database that `str.lower` and `str.strip` read.
pub record Unicode : Type 0 where
  pub lower : String → String
  pub upper : String → String
  pub is_space : Char → Bool
  -- lowering a lowered text changes nothing
  pub lower_idem : (s : String) → lower (lower s) ≡ lower s

-- `len(s)`
unfoldable pub text_length : String → ℕ
text_length [] = 0
text_length (c ∷ s) = suc (text_length s)

-- `s[:n]`
unfoldable pub text_take : ℕ → String → String
text_take zero s = []
text_take (suc n) [] = []
text_take (suc n) (c ∷ s) = c ∷ text_take n s

-- `bool(s)`
abbrev pub truthy : String → Bool
truthy [] = false
truthy (c ∷ s) = true

-- `s.split(sep)[0]`: what stands before the first separator
unfoldable pub before_first : ℕ → String → String
before_first sep [] = []
before_first sep (c ∷ s) =
    let rest = before_first sep s in if eqb (code c) sep then [] else c ∷ rest

unfoldable pub is_ascii : String → Bool
is_ascii [] = true
is_ascii (c ∷ s) = leb (code c) 127 && is_ascii s

-- `ch in s` for one character
unfoldable pub has_char : ℕ → String → Bool
has_char ch [] = false
has_char ch (c ∷ s) = eqb (code c) ch || has_char ch s

-- `not s.strip()`
unfoldable pub is_blank : (Char → Bool) → String → Bool
is_blank sp [] = true
is_blank sp (c ∷ s) = sp c && is_blank sp s

-- `s.strip()`
unfoldable pub lstrip : (Char → Bool) → String → String
lstrip sp [] = []
lstrip sp (c ∷ s) = let rest = lstrip sp s in if sp c then rest else c ∷ s

unfoldable pub rstrip : (Char → Bool) → String → String
rstrip sp [] = []
rstrip sp (c ∷ s) =
    let rest = rstrip sp s in if sp c && (if truthy rest then false else true) then [] else c ∷ rest

unfoldable pub strip : (Char → Bool) → String → String
unfolding lstrip rstrip
strip sp s = rstrip sp (lstrip sp s)

-- `s.startswith(prefix)`
unfoldable pub starts_with : String → String → Bool
starts_with s [] = true
starts_with [] (d ∷ prefix) = false
starts_with (c ∷ s) (d ∷ prefix) = eqb (code c) (code d) && starts_with s prefix

-- `s[n:]`
unfoldable pub text_drop : ℕ → String → String
text_drop zero s = s
text_drop (suc n) [] = []
text_drop (suc n) (c ∷ s) = text_drop n s

-- `s.removeprefix(prefix)`
unfoldable pub remove_prefix : String → String → String
unfolding starts_with text_length text_drop
remove_prefix s prefix = if starts_with s prefix then text_drop (text_length prefix) s else s

-- The order of texts by code points, of Python's `<=` and of SQLite's BINARY collation on UTF-8.
unfoldable pub text_leb : String → String → Bool
text_leb [] t = true
text_leb (c ∷ s) [] = false
text_leb (c ∷ s) (d ∷ t) = elim (compare (code c) (code d)) [
  | Ordering.lt ↦ true
  | Ordering.eq ↦ text_leb s t
  | Ordering.gt ↦ false
]

pub text_leb_total : (s t : String) → (text_leb s t ≡ true) ⊎ (text_leb t s ≡ true)
unfolding text_leb
text_leb_total [] t = inl refl
text_leb_total (c ∷ s) [] = inr refl
text_leb_total (c ∷ s) (d ∷ t) = ground (arith, text_leb_total s t)

pub text_leb_trans :
    (s t u : String) → text_leb s t ≡ true → text_leb t u ≡ true → text_leb s u ≡ true
unfolding text_leb
text_leb_trans [] t u h k = refl
text_leb_trans (c ∷ s) [] u h k = cc
text_leb_trans (c ∷ s) (d ∷ t) [] h k = cc
text_leb_trans (c ∷ s) (d ∷ t) (e ∷ u) h k = ground (arith, text_leb_trans s t u)

pub text_leb_antisymm : (s t : String) → text_leb s t ≡ true → text_leb t s ≡ true → s ≡ t
unfolding text_leb
text_leb_antisymm [] [] h k = refl
text_leb_antisymm [] (d ∷ t) h k = absurd (cc k)
text_leb_antisymm (c ∷ s) [] h k = absurd (cc h)
text_leb_antisymm (c ∷ s) (d ∷ t) h k =
    let same : code c ≡ code d = ground arith in
    cc (Char-path c d same, text_leb_antisymm s t (ground arith) (ground arith))

pub starts_with-append : (s t : String) → starts_with (append s t) s ≡ true
unfolding starts_with
starts_with-append [] t = refl
starts_with-append (c ∷ s) t = rw cons-append (ground (arith, starts_with-append s t))

text_drop-append : (s t : String) → text_drop (text_length s) (append s t) ≡ t
unfolding text_drop text_length
text_drop-append [] t = nil-append t
text_drop-append (c ∷ s) t = rw cons-append (text_drop-append s t)

-- `(s + t).removeprefix(s) == t`
pub remove_prefix-append : (s t : String) → remove_prefix (append s t) s ≡ t
unfolding remove_prefix
remove_prefix-append s t = rw starts_with-append (text_drop-append s t)

-- `s + t`, by recursion on the first text, so that it computes over a literal.
infixr 66 ◌⧺◌
abbrev pub ◌⧺◌ : String → String → String
[] ⧺ t = t
(c ∷ s) ⧺ t = c ∷ (s ⧺ t)

pub ⧺_assoc : (s t u : String) → (s ⧺ t) ⧺ u ≡ s ⧺ (t ⧺ u)
⧺_assoc [] t u = refl
⧺_assoc (c ∷ s) t u = ap (◌∷◌ c) (⧺_assoc s t u)

-- No character of the text has the code.
pub has_char-append :
    (ch : ℕ) (s t : String) → has_char ch (s ⧺ t) ≡ (has_char ch s || has_char ch t)
unfolding has_char
has_char-append ch [] t = refl
has_char-append ch (c ∷ s) t = ground (arith, has_char-append ch s t)

-- `part in s`
unfoldable pub contains : String → String → Bool
contains [] part = starts_with [] part
contains (c ∷ s) part = starts_with (c ∷ s) part || contains s part
