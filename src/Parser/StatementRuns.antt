-- ===== src/Parser/StatementRuns.antt =====
-- How the statements that hold statements run.
use vision_pipe.Base.{
  ℕ, zero, suc, ◌+◌, ◌*◌, ◌≤◌, ◌≡◌, inl, inr, Bool-cases, arith, Bool, true, false, List, [], ◌∷◌,
  Option, none, some,
}
use vision_pipe.Lexer.Token.{
  TokenType, identifier, kw_end, kw_else, kw_global, kw_cache, kw_exec_seq, kw_exec_multi,
  kw_exec_loop, kw_exec_interval, kw_no_interval, kw_exec_interval_multi, kw_exec_rt_seq,
  kw_exec_rt_multi, kw_exec_nasync, kw_exec_fork, kw_debug_start, kw_debug_end, kw_use, kw_if,
  kw_while, kw_break, kw_continue, kw_return,
}
use vision_pipe.Parser.Syntax.{Statement, Statements, no_statements}
use vision_pipe.Parser.State.{State, Parser, pure, branch, ask, bind}
use vision_pipe.Parser.Cursor.{is_at_end, check, check_any}
use vision_pipe.Parser.Statements.{
  at_block_end, at_start_word, statement, other_statement, exec_nasync_statement, if_statement,
  while_statement, block, recovering_block, resume,
}
use vision_pipe.Parser.Runs.{left, Reads, Reads-pure, Reads-bind}
use vision_pipe.Parser.Moves.{
  Matched, Reads-ask, Reads-branch, Reads-tested, Reads-match, Reads-current, Reads-advance,
  Reads-consume,
}
use vision_pipe.Parser.Recovers.{Reads-attempt}
use vision_pipe.Parser.ExpressionRuns.{expression-Reads}
use vision_pipe.Parser.SimpleRuns.{
  global_promote_statement-Reads, exec_seq_statement-Reads, exec_multi_statement-Reads,
  exec_loop_statement-Reads, exec_interval_statement-Reads, no_interval_statement-Reads,
  exec_interval_multi_statement-Reads, exec_rt_seq_statement-Reads, exec_rt_multi_statement-Reads,
  exec_fork_statement-Reads, debug_start_statement-Reads, debug_end_statement-Reads,
  use_statement-Reads, cache_statement-Reads, return_statement-Reads, break_statement-Reads,
  continue_statement-Reads, expression_statement-Reads,
}

module _ {D : Type 0} where
  -- At the end of the tokens a block ends.
  pub stop-Reads :
      {A : Type 0} {k : ℕ} {s : State D} {p : Parser D A} (q : Parser D A) (stops : List TokenType)
      → is_at_end s ≡ true
      → Reads k s p
      → Reads k s (branch (at_block_end stops) p q)
  unfolding at_block_end branch ask bind
  stop-Reads {s = s} q stops e r = elim (Bool-cases (check_any stops s)) [
    | inl e' ↦ record { runs = rw e' r.runs }
    | inr e' ↦ record { runs = rw (e', e) r.runs }
  ]

  at_start_word-Reads : (s : State D) → Reads 0 s at_start_word
  unfolding at_start_word
  at_start_word-Reads s =
      Reads-ask (check identifier) (λ _. Reads-bind (Reads-current s) λ t s₁ l₁. Reads-pure _ s₁)
        (Reads-pure false s)

  recovering_end :
      (f : ℕ) (skips : Parser D Bool) (s : State D)
      → is_at_end s ≡ true
      → 1 ≤ f
      → Reads 0 s (recovering_block f skips)
  unfolding recovering_block
  recovering_end zero skips s e h = absurd (omega arith)
  recovering_end (suc f) skips s e h = stop-Reads _ (kw_end ∷ []) e (Reads-pure no_statements s)

  resume-Reads :
      (more : Parser D (Statements D)) (read : Option (Statement D)) (s : State D)
      → Reads 0 s more
      → Reads 0 s (resume more read)
  unfolding resume
  resume-Reads more (some x) s r = Reads-bind r λ rest s₁ l₁. Reads-pure _ s₁
  resume-Reads more none s r = Reads-ask (check kw_end) (λ _. Reads-pure _ s) r

mutual
  unfolding statement at_block_end

  statement-Reads :
      {D : Type 0} (f : ℕ) (s : State D) → 5 * left s + 7 ≤ f → Reads 1 s (statement f)
  statement-Reads zero s h = absurd (omega arith)
  statement-Reads (suc f) s h =
      Reads-ask (check kw_exec_seq) (λ _. exec_seq_statement-Reads f s (omega arith))
        (Reads-ask (check kw_exec_multi) (λ _. exec_multi_statement-Reads f s (omega arith))
          (Reads-ask (check kw_exec_loop) (λ _. exec_loop_statement-Reads f s (omega arith))
            (Reads-ask (check kw_exec_interval)
              (λ _. exec_interval_statement-Reads f s (omega arith))
              (Reads-ask (check kw_no_interval) (λ _. no_interval_statement-Reads f s (omega arith))
                (Reads-ask (check kw_exec_interval_multi)
                  (λ _. exec_interval_multi_statement-Reads f s (omega arith))
                  (Reads-ask (check kw_exec_rt_seq)
                    (λ _. exec_rt_seq_statement-Reads f s (omega arith))
                    (Reads-ask (check kw_exec_rt_multi)
                      (λ _. exec_rt_multi_statement-Reads f s (omega arith))
                      (Reads-ask (check kw_exec_nasync)
                        (λ _. exec_nasync_statement-Reads f s (omega arith))
                        (Reads-ask (check kw_exec_fork)
                          (λ _. exec_fork_statement-Reads f s (omega arith))
                          (other_statement-Reads f s (omega arith)))))))))))

  other_statement-Reads :
      {D : Type 0} (f : ℕ) (s : State D) → 5 * left s + 6 ≤ f → Reads 1 s (other_statement f)
  other_statement-Reads zero s h = absurd (omega arith)
  other_statement-Reads (suc f) s h =
      Reads-ask (check kw_debug_start) (λ _. debug_start_statement-Reads s)
        (Reads-ask (check kw_debug_end) (λ _. debug_end_statement-Reads s)
          (Reads-ask (check kw_use) (λ _. use_statement-Reads s)
            (Reads-ask (check kw_cache) (λ _. cache_statement-Reads f s (omega arith))
              (Reads-ask (check kw_global) (λ _. global_promote_statement-Reads f s (omega arith))
                (Reads-ask (check kw_if) (λ _. if_statement-Reads f s (omega arith))
                  (Reads-ask (check kw_while) (λ _. while_statement-Reads f s (omega arith))
                    (Reads-ask (check kw_return) (λ _. return_statement-Reads f s (omega arith))
                      (Reads-ask (check kw_break) (λ _. break_statement-Reads s)
                        (Reads-ask (check kw_continue) (λ _. continue_statement-Reads s)
                          (expression_statement-Reads f s (omega arith)))))))))))

  exec_nasync_statement-Reads :
      {D : Type 0} (f : ℕ) (s : State D) → 5 * left s + 5 ≤ f → Reads 1 s (exec_nasync_statement f)
  exec_nasync_statement-Reads zero s h = absurd (omega arith)
  exec_nasync_statement-Reads (suc f) s h = Reads-bind (Reads-current s) λ here s₁ l₁.
      Reads-bind (Reads-consume kw_exec_nasync _ s₁) λ t s₂ l₂.
        Reads-branch (at_start_word-Reads s₂)
          (λ s₃ l₃. Reads-bind (Reads-advance s₃) λ u s₄ l₄.
            Reads-bind (recovering_block-Reads f (pure false) s₄ (λ s'. Matched.miss) (omega arith))
              λ body s₅ l₅. Reads-bind (Reads-consume kw_end _ s₅) λ v s₆ l₆. Reads-pure _ s₆)
          (λ s₃ l₃. Reads-bind (expression-Reads f s₃ (omega arith)) λ e s₄ l₄. Reads-pure _ s₄)

  if_statement-Reads :
      {D : Type 0} (f : ℕ) (s : State D) → 5 * left s + 5 ≤ f → Reads 1 s (if_statement f)
  if_statement-Reads zero s h = absurd (omega arith)
  if_statement-Reads (suc f) s h = Reads-bind (Reads-current s) λ here s₁ l₁.
      Reads-bind (Reads-consume kw_if _ s₁) λ t s₂ l₂.
        Reads-bind (expression-Reads f s₂ (omega arith)) λ condition s₃ l₃.
          Reads-bind
            (block-Reads f (kw_else ∷ kw_end ∷ []) (pure false) s₃ (λ s'. Matched.miss)
              (omega arith))
            λ body s₄ l₄.
              Reads-match kw_else
                (λ s₅ l₅.
                  Reads-ask (check kw_if)
                    (λ _.
                      Reads-bind (if_statement-Reads f s₅ (omega arith))
                        λ other s₆ l₆. Reads-pure _ s₆)
                    (Reads-bind
                      (block-Reads f (kw_end ∷ []) (pure false) s₅ (λ s'. Matched.miss)
                        (omega arith))
                      λ others s₆ l₆.
                        Reads-bind (Reads-consume kw_end _ s₆) λ v s₇ l₇. Reads-pure _ s₇))
                (Reads-bind (Reads-consume kw_end _ s₄) λ v s₅ l₅. Reads-pure _ s₅)

  while_statement-Reads :
      {D : Type 0} (f : ℕ) (s : State D) → 5 * left s + 5 ≤ f → Reads 1 s (while_statement f)
  while_statement-Reads zero s h = absurd (omega arith)
  while_statement-Reads (suc f) s h = Reads-bind (Reads-current s) λ here s₁ l₁.
      Reads-bind (Reads-consume kw_while _ s₁) λ t s₂ l₂.
        Reads-bind (expression-Reads f s₂ (omega arith)) λ condition s₃ l₃.
          Reads-bind
            (block-Reads f (kw_end ∷ []) (pure false) s₃ (λ s'. Matched.miss) (omega arith))
            λ body s₄ l₄. Reads-bind (Reads-consume kw_end _ s₄) λ v s₅ l₅. Reads-pure _ s₅

  block-Reads :
      {D : Type 0} (f : ℕ) (stops : List TokenType) (skips : Parser D Bool) (s : State D)
      → ((s' : State D) → Matched s' (skips s'))
      → 5 * left s + 8 ≤ f
      → Reads 0 s (block f stops skips)
  block-Reads zero stops skips s m h = absurd (omega arith)
  block-Reads (suc f) stops skips s m h =
      Reads-ask _ (λ _. Reads-pure no_statements s)
        (Reads-tested skips (m s) (λ s₁ l₁. block-Reads f stops skips s₁ m (omega arith))
          (Reads-bind (statement-Reads f s (omega arith)) λ x s₁ l₁.
            Reads-bind (block-Reads f stops skips s₁ m (omega arith))
              λ rest s₂ l₂. Reads-pure _ s₂))

  recovering_block-Reads :
      {D : Type 0} (f : ℕ) (skips : Parser D Bool) (s : State D)
      → ((s' : State D) → Matched s' (skips s'))
      → 5 * left s + 8 ≤ f
      → Reads 0 s (recovering_block f skips)
  recovering_block-Reads zero skips s m h = absurd (omega arith)
  recovering_block-Reads (suc f) skips s m h =
      Reads-ask _ (λ _. Reads-pure no_statements s)
        (Reads-tested skips (m s) (λ s₁ l₁. recovering_block-Reads f skips s₁ m (omega arith))
          (Reads-attempt (statement-Reads f s (omega arith)) λ read s₁ l₁ e.
            resume-Reads (recovering_block f skips) read s₁ (elim e [
              | inl done ↦ recovering_end f skips s₁ done (omega arith)
              | inr l ↦ recovering_block-Reads f skips s₁ m (omega arith)
            ])))

pub any_statement-Reads :
    {D : Type 0} (f : ℕ) (s : State D) → 5 * left s + 7 ≤ f → Reads 1 s (statement f)
any_statement-Reads = statement-Reads

pub statements-Reads :
    {D : Type 0} (f : ℕ) (stops : List TokenType) (skips : Parser D Bool) (s : State D)
    → ((s' : State D) → Matched s' (skips s'))
    → 5 * left s + 8 ≤ f
    → Reads 0 s (block f stops skips)
statements-Reads = block-Reads

pub recovering-Reads :
    {D : Type 0} (f : ℕ) (skips : Parser D Bool) (s : State D)
    → ((s' : State D) → Matched s' (skips s'))
    → 5 * left s + 8 ≤ f
    → Reads 0 s (recovering_block f skips)
recovering-Reads = recovering_block-Reads
