-- ===== src/Params/Bytewise.antt =====
-- The line buffer of `handleClient` in src/interpreter/param_server.cpp read byte by byte, and the loop
-- over its lines compared with that.
use vision_pipe.Base.{
  ℕ, zero, suc, ◌<◌, true, false, [], ◌∷◌, ◌++◌, none, some, ◌≡◌, refl, sym, ap, ◌∙◌, arith, ◌==◌,
  if◌then◌else◌, Bytes, eq_bytes, length, append-nil, append_assoc, Bool-cases, if_cases,
  Option-cases, inl, inr,
}
use vision_pipe.Params.Value.{Floats}
use vision_pipe.Params.Server.{process_command}
use vision_pipe.Params.Newline.{find_newline-length, find_newline-none, find_newline-some}
use vision_pipe.Params.Session.{
  Session, find_newline, strip_return, is_quit, run_line, handle_line, drain,
}

module _ {D Cb : Type 0} (fl : Floats D) where
  abbrev pub emptied : Session D Cb → Session D Cb
  emptied s = record s { buffer = [] }

  -- Reading one byte: a line feed ends the line that is in the buffer.
  unfoldable pub put_byte : ℕ → Session D Cb → Session D Cb
  unfolding handle_line
  put_byte b s =
      if s.closed
      then s
      else if b == b'\n'
      then handle_line fl s.buffer (emptied s)
      else record s { buffer = s.buffer ++ b ∷ [] }

  unfoldable pub feed : Bytes → Session D Cb → Session D Cb
  unfolding put_byte
  feed [] s = s
  feed (b ∷ bs) s = feed bs (put_byte b s)

  pub feed-append : (xs ys : Bytes) (s : Session D Cb) → feed (xs ++ ys) s ≡ feed ys (feed xs s)
  unfolding feed
  feed-append [] ys s = refl
  feed-append (x ∷ xs) ys s = feed-append xs ys (put_byte x s)

  pub feed-closed : (bs : Bytes) (s : Session D Cb) → s.closed ≡ true → feed bs s ≡ s
  unfolding feed
  feed-closed [] s h = refl
  feed-closed (b ∷ bs) s h =
      ap (feed bs) (let e : put_byte b s ≡ s = unfold put_byte in rw h in e) ∙ feed-closed bs s h

  put_plain :
      (b : ℕ) (s : Session D Cb)
      → s.closed ≡ false
      → (b == b'\n') ≡ false
      → put_byte b s ≡ record s { buffer = s.buffer ++ b ∷ [] }
  unfolding put_byte
  put_plain b s h k = ground arith

  put_newline :
      (b : ℕ) (s : Session D Cb)
      → s.closed ≡ false
      → (b == b'\n') ≡ true
      → put_byte b s ≡ handle_line fl s.buffer (emptied s)
  unfolding put_byte
  put_newline b s h k = ground arith

  -- Without a line feed the bytes only fill the buffer.
  pub feed_plain :
      (bs : Bytes) (s : Session D Cb)
      → s.closed ≡ false
      → find_newline bs ≡ none
      → feed bs s ≡ record s { buffer = s.buffer ++ bs }
  unfolding feed find_newline
  feed_plain [] s h n = ap (λ x. record s { buffer = x }) (sym (append-nil s.buffer))
  feed_plain (b ∷ bs) s h n =
      let (hb, hbs) = find_newline-none b bs n in
      ap (feed bs) (put_plain b s h hb)
      ∙ feed_plain bs (record s { buffer = s.buffer ++ b ∷ [] }) h hbs
      ∙ ap (λ x. record s { buffer = x }) (append_assoc s.buffer (b ∷ []) bs)

  -- A line feed ends the line.
  feed_line :
      (bs l r : Bytes) (s : Session D Cb)
      → s.closed ≡ false
      → find_newline bs ≡ some (l, r)
      → feed bs s ≡ feed r (handle_line fl (s.buffer ++ l) (emptied s))
  unfolding feed find_newline
  feed_line [] l r s h n = cc
  feed_line (b ∷ bs) l r s h n = elim (find_newline-some b bs l r n) [
    | inl (hb, hl, hr) ↦
        ap (feed bs) (put_newline b s h hb)
        ∙ ap (λ x. feed bs (handle_line fl x (emptied s)))
            (sym (append-nil s.buffer) ∙ ap (λ x. s.buffer ++ x) (sym hl))
        ∙ ap (λ x. feed x (handle_line fl (s.buffer ++ l) (emptied s))) (sym hr)
    | inr (hb, (l', hl, hbs)) ↦
        ap (feed bs) (put_plain b s h hb)
        ∙ feed_line bs l' r (record s { buffer = s.buffer ++ b ∷ [] }) h hbs
        ∙ ap (λ x. feed r (handle_line fl x (emptied s)))
            (append_assoc s.buffer (b ∷ []) l' ∙ ap (λ x. s.buffer ++ x) (sym hl))
  ]

  abbrev refilled : Bytes → Session D Cb → Session D Cb
  refilled rest s = if s.closed then s else record s { buffer = rest }

  run_line-refilled :
      (line rest : Bytes) (s : Session D Cb)
      → run_line fl line (record s { buffer = rest }) ≡ refilled rest (run_line fl line (emptied s))
  unfolding run_line
  run_line-refilled line rest s =
      elim (is_quit line)
        as (λ q.
          (let r = process_command fl line s.client s.store in
            ◌≡◌ {A = Session D Cb}
              (record {
                buffer = if q then [] else rest;
                client = r.client;
                store = r.store;
                written =
                    if eq_bytes r.response [] then s.written else s.written ++ r.response ∷ [];
                calls = s.calls ++ r.calls;
                closed = q;
              })
              (refilled rest (record {
                buffer = if q then [] else [];
                client = r.client;
                store = r.store;
                written =
                    if eq_bytes r.response [] then s.written else s.written ++ r.response ∷ [];
                calls = s.calls ++ r.calls;
                closed = q;
              })))) [ true ↦ refl | false ↦ refl ]

  handle_line-refilled :
      (line rest : Bytes) (s : Session D Cb)
      → s.closed ≡ false
      → handle_line fl line (record s { buffer = rest })
        ≡ refilled rest (handle_line fl line (emptied s))
  unfolding handle_line
  handle_line-refilled line rest s h =
      elim (eq_bytes (strip_return line) [])
        as (λ q.
          (if q
            then record s { buffer = rest }
            else run_line fl (strip_return line) (record s { buffer = rest }))
          ≡ refilled rest (if q then emptied s else run_line fl (strip_return line) (emptied s))) [
            | true ↦ rw h refl
            | false ↦ run_line-refilled (strip_return line) rest s
          ]

  run_line-buffer : (line : Bytes) (s : Session D Cb) → (run_line fl line (emptied s)).buffer ≡ []
  unfolding run_line
  run_line-buffer line s = if_cases (λ (x : Bytes). x ≡ []) (is_quit line) (λ e. refl) (λ e. refl)

  pub handle_line-buffer :
      (line : Bytes) (s : Session D Cb) → (handle_line fl line (emptied s)).buffer ≡ []
  unfolding handle_line
  handle_line-buffer line s =
      if_cases (λ (x : Session D Cb). x.buffer ≡ []) (eq_bytes (strip_return line) []) (λ e. refl)
        (λ e. run_line-buffer (strip_return line) s)

  drain_line :
      (fuel : ℕ) (s : Session D Cb) (l r : Bytes)
      → find_newline s.buffer ≡ some (l, r)
      → drain fl (suc fuel) s ≡ (
          let s' = handle_line fl l (record s { buffer = r }) in
          if s'.closed then s' else drain fl fuel s')
  unfolding drain
  drain_line fuel s l r e = rw (drain, e) refl

  drain_rest :
      (fuel : ℕ) (rest : Bytes) (s : Session D Cb)
      → s.buffer ≡ []
      → length rest < fuel
      → ((x : Session D Cb)
          → x.closed ≡ false
          → length x.buffer < fuel
          → drain fl fuel x ≡ feed x.buffer (emptied x))
      → (let x = refilled rest s in if x.closed then x else drain fl fuel x) ≡ feed rest s
  drain_rest fuel rest s hb hl ih = elim (Bool-cases s.closed) [
    | inl c ↦
        let same : refilled rest s ≡ s = rw c refl in
        let stop : (if s.closed then s else drain fl fuel s) ≡ s = rw c refl in
        ap (λ x. if x.closed then x else drain fl fuel x) same ∙ stop ∙ sym (feed-closed rest s c)
    | inr c ↦
        let s' : Session D Cb = record s { buffer = rest } in
        let same : refilled rest s ≡ s' = rw c refl in
        let go : (if s.closed then s' else drain fl fuel s') ≡ drain fl fuel s' = rw c refl in
        ap (λ x. if x.closed then x else drain fl fuel x) same
        ∙ go
        ∙ ih s' c hl
        ∙ ap (λ x. feed rest (record s { buffer = x })) (sym hb)
  ]

  pub drain-feed :
      (fuel : ℕ) (s : Session D Cb)
      → s.closed ≡ false
      → length s.buffer < fuel
      → drain fl fuel s ≡ feed s.buffer (emptied s)
  unfolding drain
  drain-feed zero s h k = absurd (omega arith)
  drain-feed (suc fuel) s h k = elim (Option-cases (find_newline s.buffer)) [
    | inl e ↦
        let stays : drain fl (suc fuel) s ≡ s = rw (drain, e) refl in
        stays ∙ sym (feed_plain s.buffer (emptied s) h e)
    | inr ((l, r), e) ↦
        drain_line fuel s l r e
        ∙ ap (λ x. if x.closed then x else drain fl fuel x) (handle_line-refilled l r s h)
        ∙ drain_rest fuel r (handle_line fl l (emptied s)) (handle_line-buffer l s)
            (let shorter = find_newline-length s.buffer l r e in omega arith)
            (λ x hx kx. drain-feed fuel x hx kx)
        ∙ sym (feed_line s.buffer l r (emptied s) h e)
  ]
