-- ===== src/Extract/Shards/Emitted.antt =====
-- What second_pass of tools/wiki_extract.py emits.
use tridb.Base.{
  sym, ap, ◌∙◌, ℕ, suc, ◌/◌, ◌≤◌, ◌<◌, ◌≡◌, refl, ◌⊎◌, Option, none, some, List, [], ◌∷◌, ◌++◌, map,
  All, Bool-cases, inl, inr, append_assoc, append_nil,
}
use mathlib.Core.Path.{subst}
use native.Mathlib.Nat.{le-div_iff_mul-le, le_trans, div-mul-le_self}
use tridb.Base.Result.{Result, ok}
use tridb.Base.Text.{Text}
use tridb.Extract.Shards.Rows.{
  listed, outputs_of, rows_of, AscendingIds, Ascending, taken, outputs-rows, Ascending-outputs,
  taken-bounded,
}
use tridb.Extract.Order.{bounded}
use tridb.Extract.{Unicode, RawPage, Wikitext, reached}
use tridb.Extract.Shards.{
  Output, Shard, ShardWriter, new_writer, close_current, write, output_of, emit_output, emit_pages,
  second_pass,
}
use tridb.Extract.Shards.Laws.{
  Row, row_of, articles_in, edges_in, written, written_edges, IsAligned, IsAt, Wrote, first-write,
  next-write,
}

div_mono : (size a b : ℕ) → a ≤ b → 0 < size → a / size ≤ b / size
div_mono size a b h p = (le-div_iff_mul-le p).1 (le_trans (div-mul-le_self a size) h)

-- The writer is new, or stands at the shard of id `i`.
abbrev Ready : ℕ → ℕ → List Row → ShardWriter → Type 0
Ready size i done w = ((w ≡ new_writer) × (done ≡ [])) ⊎ IsAt size (i / size) done w

Ready-write :
    (size i : ℕ) (o : Output) (done : List Row) (w : ShardWriter)
    → 0 < size
    → Ready size i done w
    → i ≤ o.article.id
    → Wrote size o done (write size o w)
Ready-write size i o done w p (inl (fresh, none')) up =
    subst (λ w. Wrote size o done (write size o w)) (sym fresh)
      (subst (λ done. Wrote size o done (write size o new_writer)) (sym none')
        (first-write size o p))
Ready-write size i o done w p (inr at) up =
    next-write size (i / size) o done w p at (div_mono size i o.article.id up p)

module _ (u : Unicode) (wikitext : Wikitext) (title_to_id : List (Text × ℕ))
    (redirects : List (Text × Text)) (max_articles : Option ℕ) (size : ℕ)
    (some_size : 0 < size) where
  abbrev emit : List RawPage → ℕ → ShardWriter → Result ShardWriter
  emit = emit_pages u wikitext title_to_id redirects max_articles size

  abbrev outputs : List RawPage → List Output
  outputs = outputs_of u wikitext title_to_id redirects

  abbrev Emitted : List Row → Result ShardWriter → Type 0
  Emitted done r = (w : ShardWriter) × (r ≡ ok w) × (j : ℕ) × Ready size j done w

  emit_output-Emitted :
      (o : Option Output) (rest : List Output) (emitted i : ℕ) (w : ShardWriter) (done : List Row)
      (more : ℕ → ShardWriter → Result ShardWriter)
      → Ready size i done w
      → Ascending i (listed u wikitext title_to_id redirects o ++ rest)
      → ((n i : ℕ) (w : ShardWriter) (done : List Row)
          → Ready size i done w
          → Ascending i rest
          → Emitted (done ++ map row_of (taken max_articles n rest)) (more n w))
      → Emitted
          (done
            ++ map row_of
                (taken max_articles emitted (listed u wikitext title_to_id redirects o ++ rest)))
          (emit_output u wikitext title_to_id redirects max_articles size o emitted more w)
  unfolding emit_output
  emit_output-Emitted none rest emitted i w done more at up ih = ih emitted i w done at up
  emit_output-Emitted (some o) rest emitted i w done more at up ih =
      let (w', wrote, at') = Ready-write size i o done w some_size at up.0 in
      elim (Bool-cases (reached max_articles (suc emitted))) [
        | inl last ↦ (w', rw (wrote, last) refl, o.article.id, rw last (inr at'))
        | inr on ↦
            let (t, e, j, at'') =
              ih (suc emitted) o.article.id w' (done ++ row_of o ∷ []) (inr at') up.1 in
            (
              t,
              rw (wrote, on) e,
              j,
              rw on (subst (λ d. Ready size j d t) (append_assoc done (row_of o ∷ []) _) at''),
            )
      ]

  emit_pages-Emitted :
      (pages : List RawPage) (emitted i : ℕ) (w : ShardWriter) (done : List Row)
      → Ready size i done w
      → Ascending i (outputs pages)
      → Emitted
          (done ++ map row_of (taken max_articles emitted (outputs pages)))
          (emit pages emitted w)
  unfolding emit_pages
  emit_pages-Emitted [] emitted i w done at up =
      (w, refl, i, subst (λ d. Ready size i d w) (sym (append_nil done)) at)
  emit_pages-Emitted (page ∷ rest) emitted i w done at up =
      emit_output-Emitted (output_of u wikitext title_to_id redirects page) (outputs rest) emitted i
        w done (λ n w'. emit rest n w') at up
        (λ n j w' done' at' up'. emit_pages-Emitted rest n j w' done' at' up')

  Ready-close :
      (i : ℕ) (done : List Row) (w : ShardWriter)
      → Ready size i done w
      → All (IsAligned size) (close_current w)
        × (written (close_current w) ≡ articles_in done)
        × (written_edges (close_current w) ≡ edges_in done)
  Ready-close i done w (inl (fresh, none')) =
      subst
        (λ w.
          All (IsAligned size) (close_current w)
          × (written (close_current w) ≡ articles_in done)
          × (written_edges (close_current w) ≡ edges_in done))
        (sym fresh) (tt, ap articles_in (sym none'), ap edges_in (sym none'))
  Ready-close i done w (inr at) =
      subst
        (λ w.
          All (IsAligned size) (close_current w)
          × (written (close_current w) ≡ articles_in done)
          × (written_edges (close_current w) ≡ edges_in done))
        (sym at.shape) (at.aligned, at.articles, at.edges)

module _ (u : Unicode) (wikitext : Wikitext) (title_to_id : List (Text × ℕ))
    (redirects : List (Text × Text)) (max_articles : Option ℕ) (size : ℕ)
    (some_size : 0 < size) where
  -- When the ids of the articles do not fall along the dump and `shard_size` is not 0, second_pass
  -- raises nothing. For each page of namespace 0 that is no redirect and whose normalized title has
  -- an id, up to `max_articles` of them, or one where that is 0, and in the order of the dump: the
  -- article files of its shards hold that id, the page's title and timestamp, and the text that the
  -- parser leaves of its markup; the edge files hold an edge from the id to each other article that
  -- the page's links name, once, in the order in which they are named. Each article stands in the
  -- shard of its id, and each shard's descriptors count the rows of its three files.
  pub articles-second_pass :
      (pages : List RawPage)
      → AscendingIds 0 (rows_of u wikitext title_to_id redirects pages)
      → (shards : List Shard) × (second_pass u wikitext title_to_id redirects max_articles size
            pages
          ≡ ok shards)
        × All (IsAligned size) shards
        × (let rows = bounded max_articles (rows_of u wikitext title_to_id redirects pages) in
            (written shards ≡ articles_in rows) × (written_edges shards ≡ edges_in rows))
  unfolding second_pass
  articles-second_pass pages up =
      let outs = outputs_of u wikitext title_to_id redirects pages in
      let same = outputs-rows u wikitext title_to_id redirects pages in
      let up' = Ascending-outputs 0 outs (subst (AscendingIds 0) (sym same) up) in
      let (w, e, j, at) =
        emit_pages-Emitted u wikitext title_to_id redirects max_articles size some_size pages 0 0
          new_writer [] (inl (refl, refl)) up' in
      let (aligned, articles, edges) =
        Ready-close u wikitext title_to_id redirects max_articles size some_size j
          (map row_of (taken max_articles 0 outs)) w at in
      let done = taken-bounded max_articles outs ∙ ap (λ l. bounded max_articles l) same in
      (
        close_current w,
        rw e refl,
        aligned,
        (articles ∙ ap articles_in done, edges ∙ ap edges_in done),
      )
