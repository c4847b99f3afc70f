-- ===== src/Parser/Total.antt =====
-- The parser as a whole ends, and returns a program for every list of tokens that ends well.
use vision_pipe.Base.{
  ℕ, zero, suc, ◌+◌, ◌*◌, ◌≤◌, ◌≡◌, ◌⊎◌, inl, inr, refl, arith, true, List, [], ◌∷◌, Option, none,
  some, Bytes, All, Bool-cases, length,
}
use vision_pipe.Lexer.Token.{
  Token, doc_comment, kw_pipeline, kw_global, kw_import, kw_config, kw_params, kw_on_params,
}
use vision_pipe.Parser.Syntax.{Program}
use vision_pipe.Parser.State.{
  State, state, Outcome, ok, out_of_bounds, thrown, Parser, ask, branch, bind, ◌>>=◌,
}
use vision_pipe.Parser.Cursor.{current, is_at_end, check, check_any}
use vision_pipe.Parser.Programs.{
  top_level_starts, top_level_item, program_loop, program, parse, empty_program,
}
use vision_pipe.Parser.Runs.{
  left, ahead, HasEof, HoldsLiteral, AllHold, Step, Step-refl, Step-trans, Reads, Reads-pure,
  Reads-bind,
}
use vision_pipe.Parser.Moves.{Reads-ask, Reads-match, Reads-error}
use vision_pipe.Parser.Recovers.{Tried, succeeded, caught, lost, broken, attempt-Tried}
use vision_pipe.Parser.SimpleRuns.{global_statement-Reads}
use vision_pipe.Parser.StatementRuns.{any_statement-Reads}
use vision_pipe.Parser.DeclarationRuns.{
  import_statement-Reads, config_declaration-Reads, pipeline_declaration-Reads,
  param_decl_statement-Reads, on_params_statement-Reads,
}

module _ {D : Type 0} where
  pub top_level_item-Reads :
      (f : ℕ) (p : Program D) (s : State D) → 5 * left s + 8 ≤ f → Reads 1 s (top_level_item f p)
  unfolding top_level_item
  top_level_item-Reads f p s h =
      Reads-match doc_comment (λ s₁ l₁. Reads-pure p s₁)
        (Reads-ask (check kw_import)
          (λ _. Reads-bind (import_statement-Reads s) λ i s₁ l₁. Reads-pure _ s₁)
          (Reads-ask (check kw_global)
            (λ _. Reads-bind (global_statement-Reads f s (omega arith)) λ g s₁ l₁. Reads-pure _ s₁)
            (Reads-ask (check kw_config)
              (λ _.
                Reads-bind (config_declaration-Reads f s (omega arith)) λ c s₁ l₁. Reads-pure _ s₁)
              (Reads-ask (check kw_pipeline)
                (λ _.
                  Reads-bind (pipeline_declaration-Reads f s (omega arith))
                    λ d s₁ l₁. Reads-pure _ s₁)
                (Reads-ask (check kw_params)
                  (λ _.
                    Reads-bind (param_decl_statement-Reads f s (omega arith))
                      λ d s₁ l₁. Reads-pure _ s₁)
                  (Reads-ask (check kw_on_params)
                    (λ _.
                      Reads-bind (on_params_statement-Reads f s (omega arith))
                        λ d s₁ l₁. Reads-pure _ s₁)
                    (Reads-ask (check_any top_level_starts)
                      (λ _.
                        Reads-bind (any_statement-Reads f s (omega arith))
                          λ x s₁ l₁. Reads-pure _ s₁)
                      (Reads-error _ _ s))))))))

  -- How the loop of the program ends: at the end of the tokens, or by one of the failures that are
  -- no ParseError. It raises no ParseError and does not end its fuel.
  pub data Parsed {A : Type 0} (s : State D) : Outcome D A → Type 0 where
    done : {a : A} {s' : State D} → Step s s' → is_at_end s' ≡ true → Parsed s (ok a s')
    overrun : ¬ HasEof (ahead s) → Parsed s out_of_bounds
    wrong : ¬ AllHold s → Parsed s thrown

  Parsed-after :
      {A : Type 0} {s s' : State D} {r : Outcome D A} → Step s s' → Parsed s' r → Parsed s r
  Parsed-after st (done st' e) = done (Step-trans st st') e
  Parsed-after st (overrun h) = overrun (λ e. h (st.eof e))
  Parsed-after st (wrong h) = wrong (λ a. h (st.hold a))

  after_attempt :
      {A B : Type 0} {s : State D} {r : Outcome D (Option A)} (g : Option A → Parser D B)
      → Tried s r
      → ((a : Option A) (s' : State D)
          → left s' ≤ left s
          → (is_at_end s' ≡ true) ⊎ (left s' + 1 ≤ left s)
          → Parsed s' (g a s'))
      → Parsed s (bind r g)
  unfolding bind
  after_attempt g (succeeded {a = a} {s' = s'} st l) h =
      Parsed-after st (h (some a) s' (omega arith) (inr l))
  after_attempt g (caught {s' = s'} st e) h =
      let l = st.shorter in Parsed-after st (h none s' (omega arith) e)
  after_attempt g (lost e) h = overrun e
  after_attempt g (broken e) h = wrong e

  pub loop_end :
      (f : ℕ) (p : Program D) (s : State D)
      → is_at_end s ≡ true
      → 1 ≤ f
      → Parsed s (program_loop f p s)
  unfolding program_loop branch ask bind
  loop_end zero p s e h = absurd (omega arith)
  loop_end (suc f) p s e h = rw e (done (Step-refl s) e)

  pub program_loop-Parsed :
      (f : ℕ) (p : Program D) (s : State D) → 5 * left s + 9 ≤ f → Parsed s (program_loop f p s)
  unfolding program_loop branch ask bind ◌>>=◌
  program_loop-Parsed zero p s h = absurd (omega arith)
  program_loop-Parsed (suc f) p s h = elim (Bool-cases (is_at_end s)) [
    | inl e ↦ rw e (done (Step-refl s) e)
    | inr e ↦ rw e (
        after_attempt _
          (attempt-Tried (top_level_item f p) s (top_level_item-Reads f p s (omega arith)))
          λ read s₁ l₁ d. elim d [
            | inl end ↦ loop_end f _ s₁ end (omega arith)
            | inr l ↦ program_loop-Parsed f _ s₁ (omega arith)
          ])
  ]

  program-Parsed :
      (f : ℕ) (filename : Bytes) (s : State D)
      → 5 * left s + 9 ≤ f
      → Parsed s (program f filename s)
  unfolding program ◌>>=◌ bind current
  program-Parsed f filename (state b [] d es) h = overrun (λ e. e)
  program-Parsed f filename (state b (t ∷ a) d es) h =
      program_loop-Parsed f (empty_program filename t.location) (state b (t ∷ a) d es) h

  pub parse-Parsed :
      (tokens : List (Token D)) (filename : Bytes)
      → Parsed (state [] tokens [] []) (parse tokens filename)
  unfolding parse
  parse-Parsed tokens filename =
      program-Parsed (8 * length tokens + 16) filename (state [] tokens [] []) (omega arith)

  -- On a list of tokens with an END_OF_FILE, whose literals hold values of their types, `parse`
  -- returns a program, with the cursor at the end: it never reads outside the tokens, and it throws
  -- nothing.
  pub parse_total :
      (tokens : List (Token D)) (filename : Bytes)
      → HasEof tokens
      → All HoldsLiteral tokens
      → (p : Program D) × (s : State D) × (parse tokens filename ≡ ok p s) × (is_at_end s ≡ true)
  parse_total tokens filename eof hold = conclude (parse-Parsed tokens filename) eof (tt, hold)
    where
      conclude :
          {r : Outcome D (Program D)} {s : State D}
          → Parsed s r
          → HasEof (ahead s)
          → AllHold s
          → (p : Program D) × (s' : State D) × (r ≡ ok p s') × (is_at_end s' ≡ true)
      conclude (done {a = p} {s' = s'} st e) eof hold = (p, s', refl, e)
      conclude (overrun h) eof hold = absurd (h eof)
      conclude (wrong h) eof hold = absurd (h hold)
