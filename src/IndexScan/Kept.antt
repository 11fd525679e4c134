-- ===== src/IndexScan/Kept.antt =====
-- Storing the score and the highlights of a hit keeps the scroll.
use zombodb.Prelude.{
  Bool-cases, Option, WhenOk, WhenOk-bind, WhenOk-mono, any_outcome, fault, faulted, inl, inr, none,
  ok, refl, returned, some, ◌>>=◌, ◌∙◌, ◌≡◌,
}
use zombodb.Curl.{Curl}
use zombodb.Highlights.{HighlightTable, save_highlights}
use zombodb.IndexScan.{ScanContext, ScoreTable, enter_score, keep_highlights, save_hit, save_score}
use zombodb.Json.{Json}
use zombodb.Query.{JsonText}
use zombodb.Xid.{ItemPointer}

module _ (l : JsonText) (c : Curl) where
  save_score-scroll :
      (ctid : ItemPointer) (score : l.Real) (ctx : ScanContext l.Real)
      → WhenOk (λ ctx'. ctx'.scroll ≡ ctx.scroll) (save_score l c ctid score ctx)
  unfolding save_score
  save_score-scroll ctid score ctx = elim (Bool-cases ctx.want_scores) [
    | inl e ↦ rw e (go ctx.score_lookup)
    | inr e ↦ rw e (returned refl)
  ]
    where
      go :
          (t : Option (ScoreTable l.Real))
          → WhenOk {A = ScanContext l.Real}
              (λ ctx'. ctx'.scroll ≡ ctx.scroll)
              (elim t [
                | none ↦ fault
                | some table ↦
                    ok (record ctx { score_lookup = some (enter_score ctid score table) })
              ])
      go none = faulted
      go (some table) = returned refl

  keep_highlights-scroll :
      (ctid : ItemPointer) (highlights : Option Json) (ctx : ScanContext l.Real)
      → WhenOk (λ ctx'. ctx'.scroll ≡ ctx.scroll) (keep_highlights l c ctid highlights ctx)
  unfolding keep_highlights
  keep_highlights-scroll ctid highlights ctx = elim (Bool-cases ctx.want_highlights) [
    | inl e ↦ rw e (go ctx.highlight_lookup)
    | inr e ↦ rw e (returned refl)
  ]
    where
      go :
          (t : Option HighlightTable)
          → WhenOk {A = ScanContext l.Real}
              (λ ctx'. ctx'.scroll ≡ ctx.scroll)
              (elim t [
                | none ↦ fault
                | some table ↦ save_highlights ctid highlights table >>= λ table'.
                    ok (record ctx { highlight_lookup = some table' })
              ])
      go none = faulted
      go (some table) =
          WhenOk-bind (any_outcome (save_highlights ctid highlights table)) λ t u. returned refl

  pub save_hit-scroll :
      (ctid : ItemPointer) (outputs : l.Real × Option Json) (ctx : ScanContext l.Real)
      → WhenOk (λ ctx'. ctx'.scroll ≡ ctx.scroll) (save_hit l c ctid outputs ctx)
  unfolding save_hit
  save_hit-scroll ctid outputs ctx =
      WhenOk-bind (save_score-scroll ctid outputs.0 ctx)
        λ ctx' e. WhenOk-mono (keep_highlights-scroll ctid outputs.1 ctx') λ ctx'' f. f ∙ e
