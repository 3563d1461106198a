-- ===== src/Server/NetServer/Stopping.antt =====
-- What `stop` does to the loop of server/net_server.cpp.
use networked_capture_the_fl.Prelude.{
  if◌then◌else◌, if-elim, ◌≡◌, ◌∙◌, refl, ap, true, false, ℕ, List, [], ◌∷◌, ◌++◌,
}
use networked_capture_the_fl.Server.NetServer.Rounds.{
  EventLoop, Ready, stop, on_result, on_results, LoopTurn, finish_round, run_round, run_loop, run,
}

-- A turn with the given results.
abbrev pub with_results : List Ready → LoopTurn → LoopTurn
with_results rs rd = record rd { results = rs }

module _ (shuffle : List ℕ → List ℕ) (r : Ready) (stops : r.stops ≡ true) where
  on_result-stopped : (l : EventLoop) → (on_result shuffle r l).running ≡ false
  unfolding stop
  on_result-stopped l =
      if-elim (λ (x : EventLoop). x.running ≡ false) r.stops _ _ (λ e. refl) (λ e. cc)

  on_results-halted :
      (rs : List Ready) (l : EventLoop) → l.running ≡ false → on_results shuffle rs l ≡ l
  unfolding on_results
  on_results-halted [] l h = refl
  on_results-halted (q ∷ rs) l h = if-elim (λ x. x ≡ l) l.running _ l (λ e. cc) (λ e. refl)

  run_loop-halted :
      (rounds : List LoopTurn) (l : EventLoop) → l.running ≡ false → run_loop shuffle rounds l ≡ l
  run_loop-halted [] l h = refl
  run_loop-halted (rd ∷ rounds) l h = if-elim (λ x. x ≡ l) l.running _ l (λ e. cc) (λ e. refl)

  on_results-cut :
      (before after : List Ready) (l : EventLoop)
      → on_results shuffle (before ++ r ∷ after) l ≡ on_results shuffle (before ++ r ∷ []) l
  unfolding on_results
  on_results-cut [] after l =
      ap (λ next. if l.running then next else l)
        (on_results-halted after (on_result shuffle r l) (on_result-stopped l))
  on_results-cut (q ∷ before) after l =
      ap (λ next. if l.running then next else l)
        (on_results-cut before after (on_result shuffle q l))

  on_results-stopped :
      (before : List Ready) (l : EventLoop)
      → (on_results shuffle (before ++ r ∷ []) l).running ≡ false
  unfolding on_results
  on_results-stopped [] l =
      if-elim (λ (x : EventLoop). x.running ≡ false) l.running _ l (λ e. on_result-stopped l)
        (λ e. e)
  on_results-stopped (q ∷ before) l =
      if-elim (λ (x : EventLoop). x.running ≡ false) l.running _ l
        (λ e. on_results-stopped before (on_result shuffle q l)) (λ e. e)

  run_loop-cut :
      (rounds rest : List LoopTurn) (before after : List Ready) (rd : LoopTurn) (l : EventLoop)
      → run_loop shuffle (rounds ++ with_results (before ++ r ∷ after) rd ∷ rest) l
        ≡ run_loop shuffle (rounds ++ with_results (before ++ r ∷ []) rd ∷ []) l
  unfolding finish_round
  run_loop-cut [] rest before after rd l =
      ap (λ next. if l.running then next else l)
        (run_loop-halted rest (run_round shuffle (with_results (before ++ r ∷ after) rd) l) (
            ap (λ (x : EventLoop). x.running) (on_results-cut before after l)
            ∙ on_results-stopped before l)
          ∙ ap (finish_round rd.now rd.check_now) (on_results-cut before after l))
  run_loop-cut (first ∷ rounds) rest before after rd l =
      ap (λ next. if l.running then next else l)
        (run_loop-cut rounds rest before after rd (run_round shuffle first l))

-- When `stop` is called during the handling of a result, the results of the same wait that are
-- behind it and all later turns change nothing: the loop ends as if there were none of them.
pub run-stops :
    (shuffle : List ℕ → List ℕ) (r : Ready)
    → r.stops ≡ true
    → (rounds rest : List LoopTurn) (before after : List Ready) (rd : LoopTurn) (l : EventLoop)
    → run shuffle (rounds ++ with_results (before ++ r ∷ after) rd ∷ rest) l
      ≡ run shuffle (rounds ++ with_results (before ++ r ∷ []) rd ∷ []) l
unfolding run
run-stops shuffle r stops rounds rest before after rd l =
    run_loop-cut shuffle r stops rounds rest before after rd (record l { running = true })
