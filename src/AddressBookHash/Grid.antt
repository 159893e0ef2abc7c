-- ===== src/AddressBookHash/Grid.antt =====
-- The picture of a content hash: the colours of its hexadecimal digits
-- (src/xmpp_p2p_chat/common/addressbook_hash.py).
use Prim.Native.String.{◌++◌ as append}
use Prim.Native.Nat.{◌/◌}
use serverless_xmpp.Base.{
  All-take, All-drop, [], ◌∷◌, ℕ, zero, suc, ◌*◌, ◌≤◌, ◌<◌, String, Char, ◌≡◌, refl, ap, List,
  arith, All, length, take, drop, text_take, text_drop, text_length,
}
use mathlib.Core.Path.{subst}
use serverless_xmpp.Base.Outcome.{chain-ok, ok-injective, Result, ok, err, index_error, ◌>>=◌}
use serverless_xmpp.AddressBookHash.{hash_hex, hash_nibbles, hex_digit, hex_digits}

abbrev pub nibble_colors : List String
nibble_colors =
    "#1e1e2e" ∷ "#45475a" ∷ "#585b70" ∷ "#6c7086" ∷ "#f38ba8" ∷ "#fab387" ∷ "#f9e2af" ∷ "#a6e3a1"
    ∷ "#94e2d5" ∷ "#89b4fa" ∷ "#cba6f7" ∷ "#f5c2e7" ∷ "#b4befe" ∷ "#74c7ec" ∷ "#89dceb" ∷ "#a6adc8"
    ∷ []

abbrev pub terminal_nibble_colors : List String
terminal_nibble_colors =
    "red" ∷ "orange1" ∷ "yellow" ∷ "green" ∷ "cyan" ∷ "blue" ∷ "magenta" ∷ "white" ∷ "bright_red"
    ∷ "bright_yellow" ∷ "bright_green" ∷ "bright_cyan" ∷ "bright_blue" ∷ "bright_magenta" ∷ "grey70"
    ∷ "grey30" ∷ []

-- `table[n]`
unfoldable pub item : List String → ℕ → Result String
item [] n = err index_error
item (c ∷ cs) zero = ok c
item (c ∷ cs) (suc n) = item cs n

-- `[table[n] for n in nibbles]`
unfoldable pub colors_of : List String → List ℕ → Result (List String)
unfolding item
colors_of table [] = ok []
colors_of table (n ∷ ns) = do c ← item table n; cs ← colors_of table ns; ok (c ∷ cs)

unfoldable pub hash_block_colors : String → ℕ → Result (List String)
unfolding colors_of
hash_block_colors content_hash grid = do
  nibbles ← hash_nibbles content_hash (grid * grid)
  colors_of nibble_colors nibbles

-- `"".join` of one cell for each colour
unfoldable pub join_cells : List String → String
join_cells [] = ""
join_cells (c ∷ cs) = append "[" (append c (append "]█[/]" (join_cells cs)))

-- The rows from `row` on, `rows` of them: `nibbles[row * grid : (row + 1) * grid]`.
unfoldable pub rich_rows : ℕ → ℕ → ℕ → List ℕ → Result (List String)
unfolding colors_of join_cells
rich_rows zero row grid nibbles = ok []
rich_rows (suc rows) row grid nibbles = do
  cells ← colors_of terminal_nibble_colors (take grid (drop (row * grid) nibbles))
  rest ← rich_rows rows (suc row) grid nibbles
  ok ((join_cells cells) ∷ rest)

-- `"\n".join(rows)`
unfoldable pub join_lines : List String → String
join_lines [] = ""
join_lines (r ∷ []) = r
join_lines (r ∷ (s ∷ rs)) = append r (append "\n" (join_lines (s ∷ rs)))

unfoldable pub render_hash_grid_rich : String → ℕ → Result String
unfolding rich_rows join_lines
render_hash_grid_rich content_hash grid = do
  nibbles ← hash_nibbles content_hash (grid * grid)
  rows ← rich_rows grid 0 grid nibbles
  ok (join_lines rows)

unfoldable pub ascii_rows : ℕ → ℕ → ℕ → String → List String
ascii_rows zero row cols hex_str = []
ascii_rows (suc rows) row cols hex_str =
    text_take cols (text_drop (row * cols) hex_str) ∷ (ascii_rows rows (suc row) cols hex_str)

unfoldable pub render_hash_grid_ascii : String → ℕ → String
unfolding ascii_rows join_lines
render_hash_grid_ascii content_hash grid =
    join_lines (ascii_rows grid 0 (grid / 2) (text_take (grid * grid / 2) (hash_hex content_hash)))

hex_digit-lt : (c : Char) (n : ℕ) → hex_digit c ≡ ok n → n < 16
unfolding hex_digit
hex_digit-lt c n h = ground arith

hex_digits-lt :
    (s : String) (ns : List ℕ)
    → hex_digits s ≡ ok ns
    → All (λ n. n < 16) ns × (length ns ≡ text_length s)
unfolding hex_digits text_length
hex_digits-lt String.[] ns h =
    subst (λ l. All (λ n. n < 16) l × (length l ≡ 0)) (ok-injective h) (tt, refl)
hex_digits-lt (String.◌∷◌ c s) ns h =
    let (n, en, h') = chain-ok (hex_digit c) _ h in
    let (ms, em, h'') = chain-ok (hex_digits s) _ h' in
    let (lt, len) = hex_digits-lt s ms em in
    subst (λ l. All (λ n. n < 16) l × (length l ≡ suc (text_length s))) (ok-injective h'')
      ((hex_digit-lt c n en, lt), ap suc len)

text_length-text_take-le : (n : ℕ) (s : String) → text_length (text_take n s) ≤ n
unfolding text_length text_take
text_length-text_take-le zero s = omega arith
text_length-text_take-le (suc n) String.[] = omega arith
text_length-text_take-le (suc n) (String.◌∷◌ c s) = omega (arith, text_length-text_take-le n s)

item-found : (table : List String) (n : ℕ) → n < length table → (c : String) × (item table n ≡ ok c)
unfolding item
item-found [] n h = absurd (omega arith)
item-found (c ∷ cs) zero h = (c, refl)
item-found (c ∷ cs) (suc n) h = item-found cs n (omega arith)

colors_of-total :
    (table : List String) (ns : List ℕ)
    → All (λ n. n < length table) ns
    → (cs : List String) × (colors_of table ns ≡ ok cs) × (length cs ≡ length ns)
unfolding colors_of
colors_of-total table [] h = ([], refl, refl)
colors_of-total table (n ∷ ns) h =
    let (c, e) = item-found table n h.0 in
    let (cs, es, len) = colors_of-total table ns h.1 in (c ∷ cs, rw (e, es) refl, ap suc len)

-- A text whose digits can be read has a colour for each of them: the palette has all sixteen, so
-- no index is out of range, and the picture has at most `grid * grid` blocks.
pub hash_block_colors_lem :
    (content_hash : String) (grid : ℕ) (ns : List ℕ)
    → hash_nibbles content_hash (grid * grid) ≡ ok ns
    → (cs : List String) × (hash_block_colors content_hash grid ≡ ok cs)
      × (length cs ≡ length ns)
      × (length cs ≤ grid * grid)
unfolding hash_block_colors hash_nibbles
hash_block_colors_lem content_hash grid ns h =
    let (lt, len) = hex_digits-lt (text_take (grid * grid) (hash_hex content_hash)) ns h in
    let (cs, e, same) = colors_of-total nibble_colors ns lt in
    (
      cs,
      rw h e,
      same,
      omega (arith, text_length-text_take-le (grid * grid) (hash_hex content_hash)),
    )

rich_rows-total :
    (rows row grid : ℕ) (ns : List ℕ)
    → All (λ n. n < 16) ns
    → (ls : List String) × (rich_rows rows row grid ns ≡ ok ls) × (length ls ≡ rows)
unfolding rich_rows
rich_rows-total zero row grid ns h = ([], refl, refl)
rich_rows-total (suc rows) row grid ns h =
    let (cs, e, _) = colors_of-total terminal_nibble_colors (take grid (drop (row * grid) ns)) (
      All-take (λ n. n < 16) grid (drop (row * grid) ns)
        (All-drop (λ n. n < 16) (row * grid) ns h)) in
    let (ls, es, len) = rich_rows-total rows (suc row) grid ns h in
    (join_cells cs ∷ ls, rw (e, es) refl, ap suc len)

-- The coloured grid is rendered for every hash whose digits can be read, as `grid` lines.
pub render_hash_grid_rich_lem :
    (content_hash : String) (grid : ℕ) (ns : List ℕ)
    → hash_nibbles content_hash (grid * grid) ≡ ok ns
    → (rows : List String) × (render_hash_grid_rich content_hash grid ≡ ok (join_lines rows))
      × (length rows ≡ grid)
unfolding render_hash_grid_rich hash_nibbles
render_hash_grid_rich_lem content_hash grid ns h =
    let (lt, len) = hex_digits-lt (text_take (grid * grid) (hash_hex content_hash)) ns h in
    let (ls, e, count) = rich_rows-total grid 0 grid ns lt in (ls, rw (h, e) refl, count)
