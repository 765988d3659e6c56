-- ===== src/Extract/Shards/Laws.antt =====
-- What _ShardWriter of tools/wiki_extract.py has written, shard by shard.
use tridb.Base.{
  sym, ap, ◌∙◌, ℕ, ◌/◌, ◌≤◌, ◌<◌, ◌≡◌, refl, false, some, List, [], ◌∷◌, ◌++◌, map, ◌==◌, length,
  sum, contains, All, All-append, arith, Bool-cases, inl, inr, append_assoc, append_nil, ==_iff,
  length-append, length-map,
}
use mathlib.Core.Path.{subst}
use tridb.Base.Result.{Result, ok}
use tridb.Base.Text.{Text}
use tridb.Extract.Shards.{
  Article, Output, Shard, ShardWriter, new_writer, open_shard, append_output, write,
}

abbrev pub written : List Shard → List Article
written [] = []
written (s ∷ rest) = s.articles ++ written rest

abbrev pub written_edges : List Shard → List (ℕ × ℕ)
written_edges [] = []
written_edges (s ∷ rest) = s.edges ++ written_edges rest

-- An article with its edges.
abbrev pub Row : Type 0
Row = Article × List (ℕ × ℕ)

abbrev pub row_of : Output → Row
row_of o = (o.article, o.edges)

abbrev pub articles_in : List Row → List Article
articles_in rows = map (λ (r : Row). r.0) rows

abbrev pub edges_in : List Row → List (ℕ × ℕ)
edges_in [] = []
edges_in (r ∷ rest) = r.1 ++ edges_in rest

articles_in_last :
    (rows : List Row) (r : Row) → articles_in (rows ++ r ∷ []) ≡ articles_in rows ++ r.0 ∷ []
articles_in_last [] r = refl
articles_in_last (q ∷ rows) r = ap (λ l. q.0 ∷ l) (articles_in_last rows r)

edges_in_last : (rows : List Row) (r : Row) → edges_in (rows ++ r ∷ []) ≡ edges_in rows ++ r.1
edges_in_last [] r = append_nil r.1
edges_in_last (q ∷ rows) r =
    ap (λ l. q.1 ++ l) (edges_in_last rows r) ∙ sym (append_assoc q.1 (edges_in rows) r.1)

abbrev pub erows : List Shard → ℕ
erows shards = sum (map (λ s. s.erows) shards)

-- Every article lies in the shard of its id, and the descriptor counts the rows.
abbrev pub IsAligned : ℕ → Shard → Type 0
IsAligned size s =
    All (λ (a : Article). a.id / size ≡ s.index) s.articles
    × (s.arows ≡ length s.articles)
    × (s.erows ≡ length s.edges)
    × (s.crows ≡ length s.categories)

append_output-IsAligned :
    (size : ℕ) (o : Output) (s : Shard)
    → o.article.id / size ≡ s.index
    → IsAligned size s
    → IsAligned size (append_output o s)
append_output-IsAligned size o s e h = (
  All-append (λ (a : Article). a.id / size ≡ s.index) s.articles (o.article ∷ []) h.0 (e, tt),
  omega (arith, h.1, length-append s.articles (o.article ∷ [])),
  omega (arith, h.2, length-append s.edges o.edges),
  omega (
    arith,
    h.3,
    length-append s.categories (map (λ cat. (o.article.id, cat)) o.categories),
    length-map {B = ℕ × Text} (λ cat. (o.article.id, cat)) o.categories,
  ),
)

-- The writer stands at shard `i`, all that came before being closed.
pub record IsAt (size i : ℕ) (done : List Row) (w : ShardWriter) : Type 0 where
  pub before : List Shard
  pub shard : Shard
  pub shape : w ≡ record { closed = before; current = some shard }
  pub index : shard.index ≡ i
  pub below : All (λ s. s.index < i) before
  pub aligned : All (IsAligned size) (before ++ shard ∷ [])
  pub articles : written (before ++ shard ∷ []) ≡ articles_in done
  pub edges : written_edges (before ++ shard ∷ []) ≡ edges_in done

written-append : (xs ys : List Shard) → written (xs ++ ys) ≡ written xs ++ written ys
written-append [] ys = refl
written-append (x ∷ xs) ys =
    ap (λ l. x.articles ++ l) (written-append xs ys)
    ∙ sym (append_assoc x.articles (written xs) (written ys))

written_edges-append :
    (xs ys : List Shard) → written_edges (xs ++ ys) ≡ written_edges xs ++ written_edges ys
written_edges-append [] ys = refl
written_edges-append (x ∷ xs) ys =
    ap (λ l. x.edges ++ l) (written_edges-append xs ys)
    ∙ sym (append_assoc x.edges (written_edges xs) (written_edges ys))

not-contains :
    (i : ℕ) (shards : List Shard)
    → All (λ s. s.index < i) shards
    → contains (map (λ s. s.index) shards) i ≡ false
not-contains i [] h = refl
not-contains i (s ∷ rest) h = ground (arith, h.0, not-contains i rest h.1)

All-below :
    (i j : ℕ) (shards : List Shard)
    → i ≤ j
    → All (λ s. s.index < i) shards
    → All (λ s. s.index < j) shards
All-below i j [] h k = tt
All-below i j (s ∷ rest) h k = (omega (arith, h, k.0), All-below i j rest h k.1)

All-init :
    (P : Shard → Type 0) (xs : List Shard) (s : Shard) → All P (xs ++ s ∷ []) → All P xs × P s
All-init P [] s h = (tt, h.0)
All-init P (x ∷ xs) s h = let (a, b) = All-init P xs s h.1 in ((h.0, a), b)

written_last :
    (closed : List Shard) (s : Shard) (o : Output)
    → written (closed ++ append_output o s ∷ []) ≡ written (closed ++ s ∷ []) ++ o.article ∷ []
written_last closed s o =
    let last = o.article ∷ [] in
    written-append closed (append_output o s ∷ [])
    ∙ ap (λ l. written closed ++ l)
        (append_nil (s.articles ++ last) ∙ ap (λ l. l ++ last) (sym (append_nil s.articles)))
    ∙ sym (append_assoc (written closed) (s.articles ++ []) last)
    ∙ ap (λ l. l ++ last) (sym (written-append closed (s ∷ [])))

written_edges_last :
    (closed : List Shard) (s : Shard) (o : Output)
    → written_edges (closed ++ append_output o s ∷ []) ≡ written_edges (closed ++ s ∷ []) ++ o.edges
written_edges_last closed s o =
    written_edges-append closed (append_output o s ∷ [])
    ∙ ap (λ l. written_edges closed ++ l)
        (append_nil (s.edges ++ o.edges) ∙ ap (λ l. l ++ o.edges) (sym (append_nil s.edges)))
    ∙ sym (append_assoc (written_edges closed) (s.edges ++ []) o.edges)
    ∙ ap (λ l. l ++ o.edges) (sym (written_edges-append closed (s ∷ [])))

-- An output written to the shard that stands open.
into_open :
    (size i : ℕ) (o : Output) (closed : List Shard) (s : Shard) (done : List Row)
    → o.article.id / size ≡ i
    → s.index ≡ i
    → All (λ s. s.index < i) closed
    → All (IsAligned size) closed
    → IsAligned size s
    → written (closed ++ s ∷ []) ≡ articles_in done
    → written_edges (closed ++ s ∷ []) ≡ edges_in done
    → IsAt size i
        (done ++ row_of o ∷ [])
        (record { closed = closed; current = some (append_output o s) })
into_open size i o closed s done e f below all last h g = record {
  shard = append_output o s;
  before = closed;
  shape = refl;
  index = f;
  below = below;
  aligned =
      All-append (IsAligned size) closed (append_output o s ∷ []) all
        (append_output-IsAligned size o s (e ∙ sym f) last, tt);
  articles =
      written_last closed s o
      ∙ ap (λ l. l ++ o.article ∷ []) h
      ∙ sym (articles_in_last done (row_of o));
  edges =
      written_edges_last closed s o
      ∙ ap (λ l. l ++ o.edges) g
      ∙ sym (edges_in_last done (row_of o));
}

open_shard-IsAligned : (size i : ℕ) → IsAligned size (open_shard i)
open_shard-IsAligned size i = (tt, refl, refl, refl)

written_open :
    (shards : List Shard) (i : ℕ) → written (shards ++ open_shard i ∷ []) ≡ written shards
written_open shards i = written-append shards (open_shard i ∷ []) ∙ append_nil (written shards)

written_edges_open :
    (shards : List Shard) (i : ℕ)
    → written_edges (shards ++ open_shard i ∷ []) ≡ written_edges shards
written_edges_open shards i =
    written_edges-append shards (open_shard i ∷ []) ∙ append_nil (written_edges shards)

abbrev pub Wrote : ℕ → Output → List Row → Result ShardWriter → Type 0
Wrote size o done r =
    (w : ShardWriter) × (r ≡ ok w) × IsAt size (o.article.id / size) (done ++ row_of o ∷ []) w

pub first-write : (size : ℕ) (o : Output) → 0 < size → Wrote size o [] (write size o new_writer)
unfolding write
first-write size o p =
    let some_size : (size == 0) ≡ false = ground arith in
    let i = o.article.id / size in
    (
      record { closed = []; current = some (append_output o (open_shard i)) },
      rw (write, some_size) refl,
      into_open size i o [] (open_shard i) [] refl refl tt tt (open_shard-IsAligned size i) refl
          refl,
    )

write_next :
    (size i : ℕ) (o : Output) (done : List Row) (closed : List Shard) (s : Shard)
    → 0 < size
    → s.index ≡ i
    → All (λ t. t.index < i) closed
    → All (IsAligned size) (closed ++ s ∷ [])
    → written (closed ++ s ∷ []) ≡ articles_in done
    → written_edges (closed ++ s ∷ []) ≡ edges_in done
    → i ≤ o.article.id / size
    → Wrote size o done (write size o (record { closed = closed; current = some s }))
unfolding write
write_next size i o done closed s p f below all h g up =
    let some_size : (size == 0) ≡ false = ground arith in
    let j = o.article.id / size in
    let (before, last) = All-init (IsAligned size) closed s all in
    elim (Bool-cases (s.index == j)) [
      | inl same ↦ (
        record { closed = closed; current = some (append_output o s) },
        rw (write, some_size, same) refl,
        into_open size j o closed s done refl ((==_iff s.index j).0 same)
            (All-below i j closed up below) before last h g,
      )
      | inr other ↦
          let less : i < j = ground (arith, f) in
          let all_below =
            All-append (λ t. t.index < j) closed (s ∷ []) (All-below i j closed up below)
              (omega (arith, f, less), tt) in
          let new = not-contains j (closed ++ s ∷ []) all_below in
          (
            record { closed = closed ++ s ∷ []; current = some (append_output o (open_shard j)) },
            rw (write, some_size, other, new) refl,
            into_open size j o (closed ++ s ∷ []) (open_shard j) done refl refl all_below all
                (open_shard-IsAligned size j) (written_open (closed ++ s ∷ []) j ∙ h)
                (written_edges_open (closed ++ s ∷ []) j ∙ g),
          )
    ]

pub next-write :
    (size i : ℕ) (o : Output) (done : List Row) (w : ShardWriter)
    → 0 < size
    → IsAt size i done w
    → i ≤ o.article.id / size
    → Wrote size o done (write size o w)
next-write size i o done w p at up =
    subst (λ w. Wrote size o done (write size o w)) (sym at.shape)
      (write_next size i o done at.before at.shard p at.index at.below at.aligned at.articles
        at.edges up)
