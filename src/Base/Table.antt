-- ===== src/Base/Table.antt =====
-- SQL tables with a text PRIMARY KEY, as the lists of their rows in rowid order.
use mathlib.Core.List.{List, [], ◌∷◌, ◌++◌}
use mathlib.Core.Path.{◌≡◌, refl, subst}
use mathlib.Core.Logic.{inl, inr}
use mathlib.Core.Option
use mathlib.Core.Option.{Option, none, some}
use native.Mathlib.Omega.{arith}
use Prim.Native.String.{String}
use text.Mathlib.Text.{◌==◌}
use text.Mathlib.TextEquality.{eq_iff}
use serverless_xmpp.Base.Tests.{if◌then◌else◌, is_some, Bool-cases}
use serverless_xmpp.Base.Lists.{All, All-append, length}
use Prim.Native.Nat.{suc}

module _ {ℓ} {R : Type ℓ} (key : R → String) where
  -- `SELECT * FROM t WHERE key = k`
  unfoldable pub find : String → List R → Option R
  find k [] = none
  find k (r ∷ t) = if key r == k then some r else find k t

  -- `DELETE FROM t WHERE key = k`
  unfoldable pub delete : String → List R → List R
  delete k [] = []
  delete k (r ∷ t) = let rest = delete k t in if key r == k then rest else r ∷ rest

  -- `UPDATE t SET … WHERE key = k`
  unfoldable pub update : String → (R → R) → List R → List R
  update k f [] = []
  update k f (r ∷ t) = let rest = update k f t in if key r == k then f r ∷ rest else r ∷ rest

  -- `INSERT OR REPLACE`: the old row goes, and the new one has the next rowid.
  unfoldable pub upsert : R → List R → List R
  upsert r t = delete (key r) t ++ r ∷ []

  -- `d[k] = r` on a dict: a present key keeps its place, a new one is last.
  unfoldable pub assign : R → List R → List R
  assign r [] = r ∷ []
  assign r (s ∷ t) = let rest = assign r t in if key s == key r then r ∷ t else s ∷ rest

  -- `INSERT OR IGNORE`
  unfoldable pub insert_ignore : R → List R → List R
  insert_ignore r t = if is_some (find (key r) t) then t else t ++ r ∷ []

  -- No two rows have one key.
  abbrev pub HasUniqueKeys : List R → Type ℓ
  HasUniqueKeys [] = Unit
  HasUniqueKeys (r ∷ t) = (find (key r) t ≡ none) × HasUniqueKeys t

  pub find-delete :
      (k j : String) (t : List R) → find k (delete j t) ≡ (if j == k then none else find k t)
  unfolding find delete
  find-delete k j [] = ground arith
  find-delete k j (r ∷ t) =
      ground (arith, find-delete k j t, eq_iff (key r) j, eq_iff (key r) k, eq_iff j k)

  pub find-append :
      (k : String) (t u : List R)
      → find k (t ++ u) ≡ (if is_some (find k t) then find k t else find k u)
  unfolding find
  find-append k [] u = refl
  find-append k (r ∷ t) u = ground (arith, find-append k t u)

  pub find-upsert :
      (k : String) (r : R) (t : List R)
      → find k (upsert r t) ≡ (if key r == k then some r else find k t)
  unfolding upsert find
  find-upsert k r t =
      ground (arith, find-append k (delete (key r) t) (r ∷ []), find-delete k (key r) t)

  pub find-insert_ignore :
      (k : String) (r : R) (t : List R)
      → find k (insert_ignore r t)
        ≡ (if is_some (find k t) then find k t else if key r == k then some r else none)
  unfolding insert_ignore find
  find-insert_ignore k r t = ground (arith, find-append k t (r ∷ []), eq_iff (key r) k)

  pub find-key : (k : String) (t : List R) (r : R) → find k t ≡ some r → key r ≡ k
  unfolding find
  find-key k [] r h = cc
  find-key k (s ∷ t) r h = ground (arith, find-key k t r, eq_iff (key s) k)

  pub delete_absent : (k : String) (t : List R) → find k t ≡ none → delete k t ≡ t
  unfolding find delete
  delete_absent k [] h = refl
  delete_absent k (r ∷ t) h = ground (arith, delete_absent k t)

  pub delete-HasUniqueKeys :
      (k : String) (t : List R) → HasUniqueKeys t → HasUniqueKeys (delete k t)
  unfolding delete
  delete-HasUniqueKeys k [] h = tt
  delete-HasUniqueKeys k (r ∷ t) h =
      ground (arith, delete-HasUniqueKeys k t, find-delete (key r) k t)

  pub append-HasUniqueKeys :
      (r : R) (t : List R) → find (key r) t ≡ none → HasUniqueKeys t → HasUniqueKeys (t ++ r ∷ [])
  unfolding find
  append-HasUniqueKeys r [] e h = (refl, tt)
  append-HasUniqueKeys r (s ∷ t) e h = ground (
    arith,
    append-HasUniqueKeys r t,
    find-append (key s) t (r ∷ []),
    eq_iff (key s) (key r),
    eq_iff (key r) (key s),
  )

  pub upsert-HasUniqueKeys : (r : R) (t : List R) → HasUniqueKeys t → HasUniqueKeys (upsert r t)
  unfolding upsert
  upsert-HasUniqueKeys r t h =
      append-HasUniqueKeys r (delete (key r) t)
        (ground (arith, find-delete (key r) (key r) t, eq_iff (key r) (key r)))
        (delete-HasUniqueKeys (key r) t h)

  pub insert_ignore-HasUniqueKeys :
      (r : R) (t : List R) → HasUniqueKeys t → HasUniqueKeys (insert_ignore r t)
  unfolding insert_ignore
  insert_ignore-HasUniqueKeys r t h = ground (arith, append-HasUniqueKeys r t)

  module _ (k : String) (f : R → R) (keeps : (r : R) → key (f r) ≡ key r) where
    pub find-update :
        (j : String) (t : List R)
        → find j (update k f t) ≡ (if k == j then Option.map f (find j t) else find j t)
    unfolding find update
    find-update j [] = ground arith
    find-update j (r ∷ t) =
        ground (arith, find-update j t, keeps r, eq_iff (key r) k, eq_iff (key r) j, eq_iff k j)

    pub update-HasUniqueKeys : (t : List R) → HasUniqueKeys t → HasUniqueKeys (update k f t)
    unfolding update
    update-HasUniqueKeys [] h = tt
    update-HasUniqueKeys (r ∷ t) h =
        ground (arith, update-HasUniqueKeys t, find-update (key r) t, keeps r)

  -- What holds of every row.
  pub All-delete {κ} : (P : R → Type κ) (k : String) (t : List R) → All P t → All P (delete k t)
  unfolding delete
  All-delete P k [] h = tt
  All-delete P k (r ∷ t) h = ground (arith, All-delete P k t h.1)

  pub All-upsert {κ} : (P : R → Type κ) (r : R) (t : List R) → P r → All P t → All P (upsert r t)
  unfolding upsert
  All-upsert P r t p h = All-append P (delete (key r) t) (r ∷ []) (All-delete P (key r) t h) (p, tt)

  pub All-insert_ignore {κ} :
      (P : R → Type κ) (r : R) (t : List R) → P r → All P t → All P (insert_ignore r t)
  unfolding insert_ignore
  All-insert_ignore P r t p h = ground (arith, All-append P t (r ∷ []) h (p, tt))

  pub All-update {κ} :
      (P : R → Type κ) (k : String) (f : R → R) (t : List R)
      → ((r : R) → P r → P (f r))
      → All P t
      → All P (update k f t)
  unfolding update
  All-update P k f [] g h = tt
  All-update P k f (r ∷ t) g h = ground (arith, All-update P k f t g h.1, g r h.0)

  pub All-find {κ} :
      (P : R → Type κ) (k : String) (t : List R) {r : R} → All P t → find k t ≡ some r → P r
  unfolding find
  All-find P k [] h e = absurd (cc e)
  All-find P k (s ∷ t) {r} h e = elim (Bool-cases (key s == k)) [
    | inl same ↦ subst P (ground arith) h.0
    | inr other ↦ All-find P k t h.1 (ground arith)
  ]

  -- A deletion of a key that is there takes one row.
  pub length-delete :
      (k : String) (t : List R) (r : R)
      → HasUniqueKeys t
      → find k t ≡ some r
      → suc (length (delete k t)) ≡ length t
  unfolding find delete
  length-delete k [] r u e = cc
  length-delete k (s ∷ t) r u e =
      ground (arith, length-delete k t r u.1, delete_absent k t, eq_iff (key s) k)

  pub find-assign :
      (k : String) (r : R) (t : List R)
      → find k (assign r t) ≡ (if key r == k then some r else find k t)
  unfolding assign find
  find-assign k r [] = refl
  find-assign k r (s ∷ t) =
      ground (arith, find-assign k r t, eq_iff (key s) (key r), eq_iff (key s) k, eq_iff (key r) k)

  pub assign-HasUniqueKeys : (r : R) (t : List R) → HasUniqueKeys t → HasUniqueKeys (assign r t)
  unfolding assign find
  assign-HasUniqueKeys r [] h = (refl, tt)
  assign-HasUniqueKeys r (s ∷ t) h = ground (
    arith,
    assign-HasUniqueKeys r t h.1,
    find-assign (key s) r t,
    eq_iff (key s) (key r),
    eq_iff (key r) (key s),
  )

  pub All-assign {κ} : (P : R → Type κ) (r : R) (t : List R) → P r → All P t → All P (assign r t)
  unfolding assign
  All-assign P r [] p h = (p, tt)
  All-assign P r (s ∷ t) p h = ground (arith, p, h.0, h.1, All-assign P r t p h.1)
