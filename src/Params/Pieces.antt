-- ===== src/Params/Pieces.antt =====
-- The pieces in which the bytes arrive do not matter: `receive` does what reading byte by byte does.
use vision_pipe.Base.{
  ℕ, suc, false, List, [], ◌∷◌, ◌++◌, none, ◌≡◌, refl, sym, ap, ◌∙◌, arith, ◌==◌, Bytes, length,
  Bool-cases, if_cases, inl, inr,
}
use vision_pipe.Params.Value.{Floats}
use vision_pipe.Params.Newline.{find_newline-snoc}
use vision_pipe.Params.Session.{Session, c_string, find_newline, drain, receive}
use vision_pipe.Params.Bytewise.{
  emptied, put_byte, feed, feed-append, feed-closed, feed_plain, handle_line-buffer, drain-feed,
}

-- What the pieces deliver.
unfoldable pub joined : List Bytes → Bytes
unfolding c_string
joined [] = []
joined (piece ∷ pieces) = c_string piece ++ joined pieces

module _ {D Cb : Type 0} (fl : Floats D) where
  -- No complete line is left in the buffer of an open session.
  unfoldable pub IsWaiting : Session D Cb → Type 0
  IsWaiting s = s.closed ≡ false → find_newline s.buffer ≡ none

  put_byte-IsWaiting : (b : ℕ) (s : Session D Cb) → IsWaiting s → IsWaiting (put_byte fl b s)
  unfolding IsWaiting put_byte find_newline
  put_byte-IsWaiting b s w =
      if_cases IsWaiting s.closed (λ c. w)
        (λ c.
          if_cases IsWaiting (b == b'\n')
            (λ e h. ap find_newline (handle_line-buffer fl s.buffer s))
            (λ e h. find_newline-snoc b s.buffer e (w h)))

  feed-IsWaiting : (bs : Bytes) (s : Session D Cb) → IsWaiting s → IsWaiting (feed fl bs s)
  unfolding feed
  feed-IsWaiting [] s w = w
  feed-IsWaiting (b ∷ bs) s w = feed-IsWaiting bs (put_byte fl b s) (put_byte-IsWaiting b s w)

  receive-feed :
      (piece : Bytes) (s : Session D Cb)
      → IsWaiting s
      → receive fl piece s ≡ feed fl (c_string piece) s
  unfolding receive IsWaiting
  receive-feed piece s w = elim (Bool-cases s.closed) [
    | inl c ↦
        let stays : receive fl piece s ≡ s = rw (receive, c) refl in
        stays ∙ sym (feed-closed fl (c_string piece) s c)
    | inr c ↦
        let filled : Session D Cb = record s { buffer = s.buffer ++ c_string piece } in
        let open_ : receive fl piece s ≡ drain fl (suc (length filled.buffer)) filled =
          rw (receive, c) refl in
        open_
        ∙ drain-feed fl (suc (length filled.buffer)) filled c (omega arith)
        ∙ feed-append fl s.buffer (c_string piece) (emptied fl s)
        ∙ ap (feed fl (c_string piece)) (feed_plain fl s.buffer (emptied fl s) c (w c))
  ]

  -- The outer loop: what has arrived so far, piece by piece.
  unfoldable pub receive_all : List Bytes → Session D Cb → Session D Cb
  unfolding receive
  receive_all [] s = s
  receive_all (piece ∷ pieces) s = receive_all pieces (receive fl piece s)

  receive_all-feed :
      (pieces : List Bytes) (s : Session D Cb)
      → IsWaiting s
      → receive_all pieces s ≡ feed fl (joined pieces) s
  unfolding receive_all joined feed
  receive_all-feed [] s w = refl
  receive_all-feed (p ∷ ps) s w =
      ap (receive_all ps) (receive-feed p s w)
      ∙ receive_all-feed ps (feed fl (c_string p) s) (feed-IsWaiting (c_string p) s w)
      ∙ sym (feed-append fl (c_string p) (joined ps) s)

  -- A session that is closed, or whose buffer holds no complete line, ends in the same state, with the
  -- same commands run, responses written and callbacks called, after any two lists of pieces that
  -- deliver the same bytes, each piece up to its first zero byte.
  pub receive_all-joined :
      (ps qs : List Bytes) (s : Session D Cb)
      → IsWaiting s
      → joined ps ≡ joined qs
      → receive_all ps s ≡ receive_all qs s
  receive_all-joined ps qs s w e =
      receive_all-feed ps s w ∙ ap (λ x. feed fl x s) e ∙ sym (receive_all-feed qs s w)
